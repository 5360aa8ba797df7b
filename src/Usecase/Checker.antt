-- ===== src/Usecase/Checker.antt =====
-- internal/usecase/checker_usecase.go: one check of a monitor, as the scheduler runs it.
pub mod Attempts
pub mod OneOpen
pub mod Steps
pub mod Tracks
pub mod Gaps
pub mod Recovery
pub mod Task
pub mod Overlap
pub mod Stuck
use hivepulse.Prelude.{
  ℕ, zero, suc, ◌+◌, ◌*◌, String, ◌==◌, Bool, false, not, ◌&&◌, Option, none, some, List, [], ◌∷◌,
  ◌++◌, length, ltb, ℤ, to_nat, if◌then◌else◌,
}
use hivepulse.Domain.{Result, ok, err, second, Monitor, Heartbeat, Incident, event_down, event_up}
use hivepulse.World.{World, State, HeartbeatEvent, Spawned}
use hivepulse.Repo.Monitors
use hivepulse.Repo.Heartbeats
use hivepulse.Repo.Incidents
use hivepulse.Repo.Windows

-- The number of rounds of `for attempt := 0; attempt <= monitor.Retries; attempt++`.
abbrev pub rounds : ℤ → ℕ
rounds (ℤ.pos n) = suc n
rounds (ℤ.negsuc n) = 0

-- The loop of attempts, with the rounds that are left: the last heartbeat, if there was a round, and
-- the time slept between the attempts. `check` gives the result of each attempt.
unfoldable pub attempts : (ℕ → Heartbeat) → ℕ → ℕ → ℕ → Option Heartbeat × ℕ
attempts check pause attempt zero = (none, 0)
attempts check pause attempt (suc zero) = (some (check attempt), 0)
attempts check pause attempt (suc (suc left)) =
    let (last, slept) = attempts check pause (attempt + 1) (suc left) in
    if (check attempt).status == "up" then (some (check attempt), 0) else (last, pause + slept)

-- `Hub.Broadcast`: the channel holds 256 messages, and one that finds it full is dropped.
abbrev pub channel_size : ℕ
channel_size = 256

unfoldable pub broadcast : HeartbeatEvent → World → World
broadcast e w =
    if ltb (length w.events) channel_size then record w { events = w.events ++ e ∷ [] } else w

abbrev pub event_of : String → String → Heartbeat → HeartbeatEvent
event_of id status h = record {
  monitor_id = id;
  status = status;
  ping_ms = h.ping_ms;
  checked_at = h.checked_at;
}

-- `go u.notifier.Notify(ctx, monitorID, event)`
abbrev pub spawn : String → String → World → World
spawn id event w = record w {
  spawned = w.spawned ++ record { monitor_id = id; event = event } ∷ [];
}

abbrev pub incident_of : String → Monitor → Heartbeat → Incident
incident_of id m h = record {
  id = 0;
  monitor_id = id;
  monitor_name = m.name;
  started_at = h.checked_at;
  resolved_at = none;
  error_msg = h.error_msg;
}

-- The `switch` on the change of status. Errors of the repository are only logged.
unfoldable pub transition : Bool → String → Monitor → Heartbeat → World → World
transition notifies id m h w =
    if not (m.last_status == "down") && h.status == "down"
    then (let w1 = (Incidents.create (incident_of id m h) w).1 in
        if notifies then spawn id event_down w1 else w1)
    else if m.last_status == "down" && h.status == "up"
    then (let w1 = (Incidents.resolve id h.checked_at w).1 in
        if notifies then spawn id event_up w1 else w1)
    else w

-- From the status update to the end of `RunCheck`.
unfoldable pub settle : Bool → String → Monitor → Heartbeat → World → World
settle notifies id m h w =
    broadcast (event_of id h.status h)
      (transition notifies id m h (Monitors.update_last_status id h.status w).1)

-- The branch of a monitor in maintenance.
unfoldable pub keep_quiet : String → Heartbeat → World → World
keep_quiet id h w =
    broadcast (event_of id "maintenance" h) (Monitors.update_last_status id "maintenance" w).1

-- An error counts as "not in maintenance".
abbrev pub in_maintenance : Result Bool → Bool
in_maintenance (ok b) = b
in_maintenance (err e) = false

-- From `heartbeats.Create` on.
unfoldable pub after_beat : Bool → String → Monitor → Heartbeat → World → World
after_beat notifies id m h w =
    let (created, w1) = Heartbeats.create h w in
    elim created [
      | err e ↦ w1
      | ok u ↦
          let (answer, w2) = Windows.is_monitor_in_maintenance id h.checked_at w1 in
          if in_maintenance answer then keep_quiet id h w2 else settle notifies id m h w2
    ]

-- `heartbeat.MonitorID = monitorID` panics if no attempt was made: then there is no world after it.
unfoldable pub after_attempts :
    Bool → String → Monitor → Option Heartbeat × ℕ → World → Option World
after_attempts notifies id m (none, slept) w = none
after_attempts notifies id m (some h, slept) w =
    some
      (after_beat notifies id m (record h { monitor_id = id }) (record w { now = w.now + slept }))

-- The checkers by type: the result of each attempt on a monitor.
abbrev pub Checkers : Type 0
Checkers = String → Option (ℕ → Monitor → Heartbeat)

unfoldable pub check_found : Checkers → Bool → String → Monitor → World → Option World
check_found checkers notifies id m w =
    if not m.enabled then some w else elim (checkers m.check_type) [
      | none ↦ some w
      | some check ↦
          after_attempts notifies id m
            (attempts (λ i. check i m) (to_nat m.retry_interval * second) 0 (rounds m.retries)) w
    ]

-- Once the monitor is looked up.
unfoldable pub after_find : Checkers → Bool → String → Result Monitor → World → Option World
after_find checkers notifies id (err e) w = some w
after_find checkers notifies id (ok m) w = check_found checkers notifies id m w

-- `CheckerUsecase.RunCheck`, with the maintenance repository that main.go passes; `notifies` is
-- whether a notifier is set. No world after it means a panic.
unfoldable pub run_check : Checkers → Bool → String → World → Option World
run_check checkers notifies id w =
    let (found, w1) = Monitors.find_by_id id w in after_find checkers notifies id found w1
