-- ===== src/Repo/Windows.antt =====
-- internal/adapter/repo/maintenance_window_repo.go: the table maintenance_windows.
use hivepulse.Prelude.{
  ℕ, String, ◌==◌, Bool, true, false, not, ◌&&◌, Option, none, some, List, [], ◌∷◌, ◌++◌, length,
  select, order_by, leb, ltb, if◌then◌else◌,
}
use hivepulse.Domain.{ok, err, other, Time, MaintenanceWindow}
use hivepulse.World.{Db, Action, query, insert_row, fetch}
use hivepulse.Repo.Monitors.{has_monitor}

abbrev refers : Db → Option String → Bool
refers d none = true
refers d (some id) = has_monitor d id

-- `MaintenanceWindowRepo.Create`; it returns the row, whose id and creation time are copied back.
unfoldable pub create : MaintenanceWindow → Action MaintenanceWindow
create mw w =
    insert_row
      (λ id d.
        let row : MaintenanceWindow = record mw { id = id; created_at = w.now } in
        if ltb mw.starts_at mw.ends_at && refers d mw.monitor_id
        then (ok row, record d { windows = d.windows ++ row ∷ [] })
        else (err (other "maintenance_windows: constraint violated"), d))
      w

-- `MaintenanceWindowRepo.Delete`
unfoldable pub delete : String → Action (Unit {0})
delete id = query (λ d. (ok tt, record d { windows = select (λ x. not (x.id == id)) d.windows }))

abbrev latest_first : MaintenanceWindow → MaintenanceWindow → Bool
latest_first a b = leb b.starts_at a.starts_at

abbrev is_for : String → Option String → Bool
is_for id none = false
is_for id (some k) = k == id

abbrev is_global : Option String → Bool
is_global none = true
is_global (some k) = false

-- `MaintenanceWindowRepo.FindByMonitor`
unfoldable pub find_by_monitor : String → Action (List MaintenanceWindow)
find_by_monitor id =
    fetch (λ d. ok (order_by latest_first (select (λ x. is_for id x.monitor_id) d.windows)))

-- `MaintenanceWindowRepo.FindGlobal`
unfoldable pub find_global : Action (List MaintenanceWindow)
find_global =
    fetch (λ d. ok (order_by latest_first (select (λ x. is_global x.monitor_id) d.windows)))

abbrev pub for_monitor : String → Option String → Bool
for_monitor id none = true
for_monitor id (some k) = k == id

-- The WHERE clause of `IsMonitorInMaintenance`: the start belongs to the window, and the end does not.
abbrev pub covers : String → Time → MaintenanceWindow → Bool
covers id at x = for_monitor id x.monitor_id && leb x.starts_at at && ltb at x.ends_at

-- `MaintenanceWindowRepo.IsMonitorInMaintenance`
unfoldable pub is_monitor_in_maintenance : String → Time → Action Bool
is_monitor_in_maintenance id at = fetch (λ d. ok (ltb 0 (length (select (covers id at) d.windows))))

-- `MaintenanceWindowRepo.DeleteExpiredBefore`; it returns the number of rows that it deleted.
unfoldable pub delete_expired_before : Time → Action ℕ
delete_expired_before before = query (λ d. (
  ok (length (select (λ x. ltb x.ends_at before) d.windows)),
  record d { windows = select (λ x. not (ltb x.ends_at before)) d.windows },
))
