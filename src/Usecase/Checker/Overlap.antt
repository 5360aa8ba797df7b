-- ===== src/Usecase/Checker/Overlap.antt =====
-- Checks that overlap, of one monitor or of several: cron starts each job in a goroutine of its own and
-- does not wait for the one before.
use hivepulse.Prelude.{
  ℕ, String, Bool, true, false, not, ◌&&◌, ◌==◌, Option, none, some, List, [], ◌∷◌, map, All,
  if◌then◌else◌,
}
use hivepulse.Domain.{Result, ok, err, Monitor, Heartbeat, event_down, event_up}
use hivepulse.World.{World}
use hivepulse.Tasks.{Task, Keeps, weave, weave-Keeps}
use hivepulse.Usecase.Checker.{Checkers, event_of, incident_of, in_maintenance}
use hivepulse.Usecase.Checker.Task.{
  ends_with, tells, opens_task, resolves_task, transition_task, settle_task, quiet_task,
  created_task, attempts_task, typed_task, found_task, check_task,
}
use hivepulse.Usecase.Checker.OneOpen.{
  OneOpen, create-OneOpen, resolve-OneOpen, status-OneOpen, beat-OneOpen, maintenance-OneOpen,
  find-OneOpen, broadcast-OneOpen,
}

if-Keeps :
    (c : Bool) (t u : Task Bool)
    → Keeps OneOpen t
    → Keeps OneOpen u
    → Keeps OneOpen (if c then t else u)
if-Keeps true t u kt ku = kt
if-Keeps false t u kt ku = ku

ends_with-Keeps : (id s : String) (h : Heartbeat) → Keeps OneOpen (ends_with id s h)
ends_with-Keeps id s h = (broadcast-OneOpen (event_of id s h), λ b. tt)

tells-Keeps :
    (n : Bool) (id event : String) (t : Task Bool)
    → Keeps OneOpen t
    → Keeps OneOpen (tells n id event t)
tells-Keeps true id event t k = (λ w one. record { at = one.at }, λ b. k)
tells-Keeps false id event t k = k

transition-Keeps :
    (n : Bool) (id : String) (m : Monitor) (h : Heartbeat)
    → Keeps OneOpen (transition_task n id m h)
unfolding transition_task
transition-Keeps n id m h =
    let ends = ends_with-Keeps id h.status h in
    let told = λ (event : String). tells-Keeps n id event (ends_with id h.status h) ends in
    if-Keeps (not (m.last_status == "down") && h.status == "down") (opens_task n id m h)
      (if m.last_status == "down" && h.status == "up"
        then resolves_task n id h
        else ends_with id h.status h)
      (create-OneOpen (incident_of id m h), λ b. told event_down)
      (if-Keeps (m.last_status == "down" && h.status == "up") (resolves_task n id h)
        (ends_with id h.status h) (resolve-OneOpen id h.checked_at, λ b. told event_up) ends)

created-Keeps :
    (n : Bool) (id : String) (m : Monitor) (h : Heartbeat) (r : Result (Unit {0}))
    → Keeps OneOpen (created_task n id m h r)
created-Keeps n id m h (err e) = tt
created-Keeps n id m h (ok u) = (
  maintenance-OneOpen id h.checked_at,
  λ answer.
      if-Keeps (in_maintenance answer) (quiet_task id h) (settle_task n id m h)
        (status-OneOpen id "maintenance", λ b. ends_with-Keeps id "maintenance" h)
        (status-OneOpen id h.status, λ b. transition-Keeps n id m h),
)

attempts-Keeps :
    (n : Bool) (id : String) (m : Monitor) (o : Option Heartbeat × ℕ)
    → Keeps OneOpen (attempts_task n id m o)
attempts-Keeps n id m (none, slept) = tt
attempts-Keeps n id m (some h, slept) =
    let beat = record h { monitor_id = id } in
    (λ w one. record { at = one.at }, λ b. (beat-OneOpen beat, created-Keeps n id m beat))

typed-Keeps :
    (n : Bool) (id : String) (m : Monitor) (c : Option (ℕ → Monitor → Heartbeat))
    → Keeps OneOpen (typed_task n id m c)
typed-Keeps n id m none = tt
typed-Keeps n id m (some check) = attempts-Keeps n id m _

found-Keeps :
    (cs : Checkers) (n : Bool) (id : String) (r : Result Monitor)
    → Keeps OneOpen (found_task cs n id r)
found-Keeps cs n id (err e) = tt
found-Keeps cs n id (ok m) = if-Keeps (not m.enabled) _ _ tt (typed-Keeps n id m (cs m.check_type))

-- The checks that have been started: the answers that each will get, and its monitor.
abbrev pub started_checks : Bool → List (Checkers × String) → List (Task Bool)
started_checks n runs = map (λ (cs, id). check_task cs n id) runs

checks-Keeps :
    (n : Bool) (runs : List (Checkers × String)) → All (Keeps OneOpen) (started_checks n runs)
unfolding check_task
checks-Keeps n [] = tt
checks-Keeps n ((cs, id) ∷ runs) = ((find-OneOpen id, found-Keeps cs n id), checks-Keeps n runs)

-- Whatever checks run at the same time, in whatever order their statements come and whatever faults the
-- database has, there is at most one open incident for each monitor, if that held before.
pub overlapping_checks-OneOpen :
    (n : Bool) (runs : List (Checkers × String)) (order : List ℕ) (w : World)
    → OneOpen w
    → OneOpen (weave order (started_checks n runs) w).1
overlapping_checks-OneOpen n runs order w one =
    weave-Keeps OneOpen order (started_checks n runs) w (checks-Keeps n runs) one
