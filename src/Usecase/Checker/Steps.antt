-- ===== src/Usecase/Checker/Steps.antt =====
-- The statements of a check on a world whose database works, each as an equation.
use hivepulse.Prelude.{
  ℕ, ◌*◌, String, ◌==◌, ◌≡◌, Bool, true, false, ◌||◌, Option, some, [], ◌∷◌, ◌++◌, any, find, arith,
  to_nat,
}
use hivepulse.Domain.{ok, Time, second, Monitor, Heartbeat}
use hivepulse.World.{World, HeartbeatEvent}
use hivepulse.Repo.Monitors
use hivepulse.Repo.Monitors.{with_status}
use hivepulse.Repo.Heartbeats
use hivepulse.Repo.Incidents.{open_of}
use hivepulse.Repo.Windows
use hivepulse.Repo.Windows.{covers}
use hivepulse.Repo.Rows.{length-select_none, length-select_some, find-status}
use hivepulse.Usecase.Checker.{Checkers, attempts, after_attempts, check_found, broadcast, rounds}

abbrev pub found_in : String → World → Option Monitor
found_in id w = find (λ x. x.id == id) w.db.monitors

abbrev pub has_open : String → World → Bool
has_open id w = any (open_of id) w.db.incidents

pub broadcast-db : (e : HeartbeatEvent) (w : World) → (broadcast e w).db ≡ w.db
unfolding broadcast
broadcast-db e w = ground arith

-- What the status update does to a world without faults.
pub status_set :
    (id s : String) (m : Monitor) (w : World)
    → w.faults ≡ []
    → (s == "up" || s == "down") ≡ true
    → found_in id w ≡ some m
    → ((Monitors.update_last_status id s w).1.faults ≡ [])
      × (has_open id (Monitors.update_last_status id s w).1 ≡ has_open id w)
      × (found_in id (Monitors.update_last_status id s w).1 ≡ some (with_status s w.now m))
unfolding Monitors.update_last_status
status_set id s m w calm fits found = ground (arith, find-status id s w.now w.db.monitors m found)

abbrev pub with_beat : Heartbeat → World → World
with_beat h w = record w { db = record w.db { heartbeats = w.db.heartbeats ++ h ∷ [] } }

-- `heartbeats.Create` and `IsMonitorInMaintenance`, without faults and with no window that covers
-- the time of the check.
pub beat_kept :
    (h : Heartbeat) (w : World)
    → w.faults ≡ []
    → (h.status == "up" || h.status == "down") ≡ true
    → any (λ x. x.id == h.monitor_id) w.db.monitors ≡ true
    → Heartbeats.create h w ≡ (ok tt, with_beat h w)
unfolding Heartbeats.create
beat_kept h w calm fits known = ground arith

pub not_in_maintenance :
    (id : String) (t : Time) (w : World)
    → w.faults ≡ []
    → any (covers id t) w.db.windows ≡ false
    → Windows.is_monitor_in_maintenance id t w ≡ (ok false, w)
unfolding Windows.is_monitor_in_maintenance
not_in_maintenance id t w calm clear = ground (arith, length-select_none (covers id t) w.db.windows)

module _ (cs : Checkers) (n : Bool) (id : String) (m : Monitor) (w : World) (calm : w.faults ≡ [])
    (found : found_in id w ≡ some m) where
  pub looked_up : Monitors.find_by_id id w ≡ (ok m, w)
  unfolding Monitors.find_by_id
  looked_up = ground arith

pub checked :
    (cs : Checkers) (n : Bool) (id : String) (m : Monitor) (w : World)
    (check : ℕ → Monitor → Heartbeat)
    → m.enabled ≡ true
    → cs m.check_type ≡ some check
    → check_found cs n id m w
      ≡ after_attempts n id m
          (attempts (λ i. check i m) (to_nat m.retry_interval * second) 0 (rounds m.retries))
          w
unfolding check_found
checked cs n id m w check on typed = ground arith

pub in_a_window :
    (id : String) (t : Time) (w : World)
    → w.faults ≡ []
    → any (covers id t) w.db.windows ≡ true
    → Windows.is_monitor_in_maintenance id t w ≡ (ok true, w)
unfolding Windows.is_monitor_in_maintenance
in_a_window id t w calm h = ground (arith, length-select_some (covers id t) w.db.windows)
