-- ===== src/Handler/Maintenance.antt =====
-- internal/adapter/handler/maintenance_handler.go. A body is `none` if gin cannot parse it, and a time in it
-- what `time.Parse` makes of its text. The times in a response are not formatted.
use hivepulse.Prelude.{ℕ, String, not, Option, none, some, List, ltb, if◌then◌else◌}
use hivepulse.Domain.{Time, MaintenanceWindow}
use hivepulse.World.{State}
use hivepulse.Repo.Windows
use hivepulse.Handler.Replies.{status_of, reply, always}

pub record MwCreateRequest : Type 0 where
  pub monitor_id : Option String
  pub starts_at : Option Time
  pub ends_at : Option Time
  pub reason : String

-- `MaintenanceHandler.ListByMonitor`; a response has the fields of the window.
unfoldable pub list_by_monitor : String → State (ℕ × Option (List MaintenanceWindow))
list_by_monitor id w =
    let (r, w1) = Windows.find_by_monitor id w in (reply (always 500) 200 (λ l. l) r, w1)

-- `MaintenanceHandler.ListGlobal`
unfoldable pub list_global : State (ℕ × Option (List MaintenanceWindow))
list_global w = let (r, w1) = Windows.find_global w in (reply (always 500) 200 (λ l. l) r, w1)

abbrev window_of : MwCreateRequest → Time → Time → MaintenanceWindow
window_of req starts ends = record {
  id = "";
  monitor_id = req.monitor_id;
  starts_at = starts;
  ends_at = ends;
  reason = req.reason;
  created_at = 0;
}

abbrev create_between :
    MwCreateRequest → Option Time → Option Time → State (ℕ × Option MaintenanceWindow)
create_between req none ends w = ((400, none), w)
create_between req (some starts) none w = ((400, none), w)
create_between req (some starts) (some ends) w =
    if not (ltb starts ends)
    then ((400, none), w)
    else (let (r, w1) = Windows.create (window_of req starts ends) w in
        (reply (always 500) 201 (λ m. m) r, w1))

-- `MaintenanceHandler.Create`: an empty time, which the binding refuses, is none either.
unfoldable pub create : Option MwCreateRequest → State (ℕ × Option MaintenanceWindow)
create none w = ((400, none), w)
create (some req) w = create_between req req.starts_at req.ends_at w

-- `MaintenanceHandler.Delete`
unfoldable pub delete : String → State ℕ
delete id w = let (r, w1) = Windows.delete id w in (status_of (always 500) 204 r, w1)
