-- ===== src/Infra/Scheduler/Requests.antt =====
-- The requests on monitors with the scheduler that main.go gives them.
use hivepulse.Prelude.{String, ◌≡◌, Option, some, none, List, ◌∷◌, lookup, arith}
use hivepulse.Domain.{err, other}
use hivepulse.World.{World}
use hivepulse.Repo.Monitors
use hivepulse.Usecase.Monitor.{delete_monitor}
use hivepulse.Infra.Scheduler.{Cron, Scheduler, service}
use hivepulse.Infra.Scheduler.InStep.{lookup-remove}

module _ (cron : Cron) where
  -- A deletion that fails in the database keeps the row, but the monitor has lost its job: it is
  -- there, perhaps enabled, and no longer checked.
  pub failed_delete_stops_checks :
      (id message : String) (rest : List (Option String)) (w : World) (s : Scheduler cron)
      → w.faults ≡ some message ∷ rest
      → let (r, w', s') = delete_monitor (service cron) id w s in
        (r ≡ err (other message)) × (w'.db ≡ w.db) × (lookup id s'.jobs ≡ none)
  unfolding delete_monitor Monitors.delete
  failed_delete_stops_checks id message rest w s h =
      (ground arith, ground arith, lookup-remove cron id s)
