-- ===== src/Usecase/Checker/Task.antt =====
-- A check as the sequence of its statements, for checks that overlap.
use hivepulse.Prelude.{
  ℕ, ◌+◌, ◌*◌, String, ◌==◌, ◌≡◌, refl, ap, Bool, true, false, not, ◌&&◌, Option, none, some, arith,
  to_nat, if◌then◌else◌,
}
use hivepulse.Domain.{Result, ok, err, second, Monitor, Heartbeat, event_down, event_up}
use hivepulse.World.{World, State}
use hivepulse.Tasks.{Task, done, call, run}
use hivepulse.Repo.Monitors
use hivepulse.Repo.Heartbeats
use hivepulse.Repo.Incidents
use hivepulse.Repo.Windows
use hivepulse.Usecase.Checker.{
  Checkers, attempts, rounds, broadcast, event_of, spawn, incident_of, transition, settle,
  keep_quiet, in_maintenance, after_beat, after_attempts, check_found, after_find, run_check,
}

-- A statement that returns nothing.
abbrev pub silent : (World → World) → State (Unit {0})
silent f w = (tt, f w)

abbrev pub pass : ℕ → World → World
pass slept w = record w { now = w.now + slept }

-- The broadcast is the last step; `true` says that the check has returned.
abbrev pub ends_with : String → String → Heartbeat → Task Bool
ends_with id status h = call (silent (broadcast (event_of id status h))) λ _. done true

abbrev pub tells : Bool → String → String → Task Bool → Task Bool
tells notifies id event rest = if notifies then call (silent (spawn id event)) (λ _. rest) else rest

abbrev pub opens_task : Bool → String → Monitor → Heartbeat → Task Bool
opens_task notifies id m h =
    call (Incidents.create (incident_of id m h))
      λ _. tells notifies id event_down (ends_with id h.status h)

abbrev pub resolves_task : Bool → String → Heartbeat → Task Bool
resolves_task notifies id h =
    call (Incidents.resolve id h.checked_at)
      λ _. tells notifies id event_up (ends_with id h.status h)

-- The `switch`, and what comes after it.
unfoldable pub transition_task : Bool → String → Monitor → Heartbeat → Task Bool
transition_task notifies id m h =
    if not (m.last_status == "down") && h.status == "down"
    then opens_task notifies id m h
    else if m.last_status == "down" && h.status == "up"
    then resolves_task notifies id h
    else ends_with id h.status h

abbrev pub settle_task : Bool → String → Monitor → Heartbeat → Task Bool
settle_task notifies id m h =
    call (Monitors.update_last_status id h.status) λ _. transition_task notifies id m h

abbrev pub quiet_task : String → Heartbeat → Task Bool
quiet_task id h =
    call (Monitors.update_last_status id "maintenance") λ _. ends_with id "maintenance" h

abbrev pub maintained_task : Bool → String → Monitor → Heartbeat → Result Bool → Task Bool
maintained_task notifies id m h answer =
    if in_maintenance answer then quiet_task id h else settle_task notifies id m h

abbrev pub created_task : Bool → String → Monitor → Heartbeat → Result (Unit {0}) → Task Bool
created_task notifies id m h (err e) = done true
created_task notifies id m h (ok u) =
    call (Windows.is_monitor_in_maintenance id h.checked_at) (maintained_task notifies id m h)

abbrev pub beat_task : Bool → String → Monitor → Heartbeat → Task Bool
beat_task notifies id m h = call (Heartbeats.create h) (created_task notifies id m h)

-- Without a heartbeat it panics: `false`.
abbrev pub attempts_task : Bool → String → Monitor → Option Heartbeat × ℕ → Task Bool
attempts_task notifies id m (none, slept) = done false
attempts_task notifies id m (some h, slept) =
    call (silent (pass slept)) λ _. beat_task notifies id m (record h { monitor_id = id })

abbrev pub typed_task : Bool → String → Monitor → Option (ℕ → Monitor → Heartbeat) → Task Bool
typed_task notifies id m none = done true
typed_task notifies id m (some check) =
    attempts_task notifies id m
      (attempts (λ i. check i m) (to_nat m.retry_interval * second) 0 (rounds m.retries))

abbrev pub found_task : Checkers → Bool → String → Result Monitor → Task Bool
found_task checkers notifies id (err e) = done true
found_task checkers notifies id (ok m) =
    if not m.enabled then done true else typed_task notifies id m (checkers m.check_type)

-- `CheckerUsecase.RunCheck`, statement by statement.
unfoldable pub check_task : Checkers → Bool → String → Task Bool
check_task checkers notifies id = call (Monitors.find_by_id id) (found_task checkers notifies id)

-- What has become of a check that came to its end.
abbrev pub outcome : Bool × World → Option World
outcome (false, w) = none
outcome (true, w) = some w

transition_task_lem :
    (n : Bool) (id : String) (m : Monitor) (h : Heartbeat) (w : World)
    → run (transition_task n id m h) w
      ≡ (true, broadcast (event_of id h.status h) (transition n id m h w))
unfolding run transition_task transition
transition_task_lem n id m h w = ground arith

maintained_lem :
    (n : Bool) (id : String) (m : Monitor) (h : Heartbeat) (answer : Result Bool) (w : World)
    → run (maintained_task n id m h answer) w
      ≡ (true, if in_maintenance answer then keep_quiet id h w else settle n id m h w)
unfolding run settle keep_quiet
maintained_lem n id m h answer w =
    ground (arith, transition_task_lem n id m h (Monitors.update_last_status id h.status w).1)

created_lem :
    (n : Bool) (id : String) (m : Monitor) (h : Heartbeat) (w : World) (r : Result (Unit {0}))
    → (Heartbeats.create h w).0 ≡ r
    → run (created_task n id m h r) (Heartbeats.create h w).1 ≡ (true, after_beat n id m h w)
unfolding run after_beat
created_lem n id m h w (err e) made = rw (after_beat, made) refl
created_lem n id m h w (ok u) made =
    let w1 : World = (Heartbeats.create h w).1 in
    rw (after_beat, made)
      (maintained_lem n id m h (Windows.is_monitor_in_maintenance id h.checked_at w1).0
        (Windows.is_monitor_in_maintenance id h.checked_at w1).1)

pub beat_task_lem :
    (n : Bool) (id : String) (m : Monitor) (h : Heartbeat) (w : World)
    → run (beat_task n id m h) w ≡ (true, after_beat n id m h w)
unfolding run
beat_task_lem n id m h w = created_lem n id m h w (Heartbeats.create h w).0 refl

attempts_lem :
    (n : Bool) (id : String) (m : Monitor) (o : Option Heartbeat × ℕ) (w : World)
    → outcome (run (attempts_task n id m o) w) ≡ after_attempts n id m o w
unfolding run after_attempts
attempts_lem n id m (none, slept) w = refl
attempts_lem n id m (some h, slept) w =
    ap outcome (beat_task_lem n id m (record h { monitor_id = id }) (pass slept w))

typed_lem :
    (n : Bool) (id : String) (m : Monitor) (c : Option (ℕ → Monitor → Heartbeat)) (w : World)
    → outcome (run (typed_task n id m c) w) ≡ elim c [
      | none ↦ some w
      | some check ↦
          after_attempts n id m
            (attempts (λ i. check i m) (to_nat m.retry_interval * second) 0 (rounds m.retries))
            w
    ]
unfolding run
typed_lem n id m none w = refl
typed_lem n id m (some check) w =
    attempts_lem n id m
      (attempts (λ i. check i m) (to_nat m.retry_interval * second) 0 (rounds m.retries)) w

guarded_lem :
    (enabled : Bool) (t : Task Bool) (w : World) {o : Option World}
    → outcome (run t w) ≡ o
    → outcome (run (if not enabled then done true else t) w) ≡ (if not enabled then some w else o)
unfolding run
guarded_lem true t w e = e
guarded_lem false t w e = refl

pub found_task_lem :
    (cs : Checkers) (n : Bool) (id : String) (r : Result Monitor) (w : World)
    → outcome (run (found_task cs n id r) w) ≡ after_find cs n id r w
unfolding run after_find check_found
found_task_lem cs n id (err e) w = refl
found_task_lem cs n id (ok m) w =
    guarded_lem m.enabled (typed_task n id m (cs m.check_type)) w
      (typed_lem n id m (cs m.check_type) w)

-- Statement by statement, a check that runs alone does what `run_check` says, a panic included.
pub check_task-run :
    (cs : Checkers) (n : Bool) (id : String) (w : World)
    → outcome (run (check_task cs n id) w) ≡ run_check cs n id w
unfolding run check_task run_check
check_task-run cs n id w =
    found_task_lem cs n id (Monitors.find_by_id id w).0 (Monitors.find_by_id id w).1
