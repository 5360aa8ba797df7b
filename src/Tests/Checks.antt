-- ===== src/Tests/Checks.antt =====
-- Checks of a monitor that is down.
use hivepulse.Prelude.{ℕ, ◌+◌, ◌*◌, ◌≡◌, refl, true, Option, none, some}
use mathlib.Core.Option
use hivepulse.Domain.{hour, Monitor, Heartbeat}
use hivepulse.World.{World}
use hivepulse.Repo.Monitors
use hivepulse.Repo.Heartbeats
use hivepulse.Repo.Incidents
use hivepulse.Repo.Windows
use hivepulse.Repo.Incidents.{open_of}
use hivepulse.Usecase.Checker.{
  attempts, run_check, after_find, check_found, after_attempts, after_beat, settle, keep_quiet,
  transition, broadcast,
}
use hivepulse.Tests.Data.{start, world, flaky, only_http, beat}

abbrev or_before : World → Option World → World
or_before w none = w
or_before w (some v) = v

abbrev checked : World
checked = or_before world (run_check (only_http flaky) true "m1" world)

goes_through : run_check (only_http flaky) true "m1" world ≡ some checked
unfolding run_check after_find check_found after_attempts attempts after_beat settle keep_quiet
    transition broadcast Monitors.find_by_id Monitors.update_last_status Heartbeats.create
    Incidents.resolve Windows.is_monitor_in_maintenance
goes_through = refl

abbrev later : ℕ → Monitor → Heartbeat
later i k = beat "up" (start + 3 * hour)
