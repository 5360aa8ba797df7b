-- ===== src/Usecase/Checker/Recovery.antt =====
-- A check in a maintenance window, and the first check after it.
use hivepulse.Prelude.{
  ℕ, ◌+◌, ◌-◌, ◌*◌, String, ◌==◌, ◌≡◌, refl, ap, Bool, true, false, ◌||◌, some, [], any, arith,
  eq_iff, ℤ, to_nat,
}
use mathlib.Core.Option
use hivepulse.Domain.{ok, second, Monitor, Heartbeat}
use hivepulse.World.{World, HeartbeatEvent}
use hivepulse.Repo.Monitors
use hivepulse.Repo.Monitors.{with_status}
use hivepulse.Repo.Windows.{covers}
use hivepulse.Repo.Rows.{find-status, find-any}
use hivepulse.Usecase.Checker.{
  Checkers, transition, settle, after_beat, after_attempts, after_find, run_check, broadcast,
  rounds, event_of,
}
use hivepulse.Usecase.Checker.Steps.{found_in, broadcast-db, with_beat, looked_up, checked}
use hivepulse.Usecase.Checker.Tracks.{after_beat-settle}
use hivepulse.Usecase.Checker.Attempts.{attempts-Stops}

-- What two checks leave alone.
pub record Silent (w v : World) : Type 0 where
  pub incidents : v.db.incidents ≡ w.db.incidents
  pub spawned : v.spawned ≡ w.spawned
  pub windows : v.db.windows ≡ w.db.windows
  pub faults : v.faults ≡ w.faults

quiet_status :
    (id s : String) (m : Monitor) (w : World)
    → w.faults ≡ []
    → (s == "up" || s == "maintenance") ≡ true
    → found_in id w ≡ some m
    → Silent w (Monitors.update_last_status id s w).1
      × (found_in id (Monitors.update_last_status id s w).1 ≡ some (with_status s w.now m))
unfolding Monitors.update_last_status
quiet_status id s m w calm fits found = ground (arith, find-status id s w.now w.db.monitors m found)

quiet_broadcast : (e : HeartbeatEvent) (w : World) → Silent w (broadcast e w)
unfolding broadcast
quiet_broadcast e w = ground arith

transition_same :
    (n : Bool) (id : String) (m : Monitor) (h : Heartbeat) (w : World)
    → (h.status == "up") ≡ true
    → (m.last_status == "down") ≡ false
    → transition n id m h w ≡ w
unfolding transition
transition_same n id m h w up was =
    ground (arith, eq_iff h.status "up", eq_iff h.status "down", eq_iff "up" "down")

-- A check that finds the monitor up, and did not see it down: `m` is the row that it read, and `now` the
-- row that is there.
pub missed_beat :
    (n : Bool) (id : String) (m now : Monitor) (h : Heartbeat) (w : World)
    → w.faults ≡ []
    → h.monitor_id ≡ id
    → (h.status == "up") ≡ true
    → any (covers id h.checked_at) w.db.windows ≡ false
    → found_in id w ≡ some now
    → (m.last_status == "down") ≡ false
    → Silent w (after_beat n id m h w)
      × (found_in id (after_beat n id m h w) ≡ some (with_status h.status w.now now))
unfolding settle
missed_beat n id m now h w calm named up clear found was =
    let w1 : World = with_beat h w in
    let w2 : World = (Monitors.update_last_status id h.status w1).1 in
    let known : any (λ x. x.id == h.monitor_id) w.db.monitors ≡ true =
      rw named (find-any id w.db.monitors now found) in
    let (still, now_found) = quiet_status id h.status now w1 calm (rw up refl) found in
    rw
      (
        after_beat-settle n id m h w calm known (rw up refl) clear,
        transition_same n id m h w2 up was,
      )
      (ground (
        arith,
        broadcast-db (event_of id h.status h) w2,
        quiet_broadcast (event_of id h.status h) w2,
      ))

-- A check of an enabled monitor of a known type with `extra` retries, from the row that it read on.
pub goes_on :
    (cs : Checkers) (n : Bool) (id : String) (m : Monitor) (w : World)
    (check : ℕ → Monitor → Heartbeat) (extra : ℕ)
    → m.enabled ≡ true
    → cs m.check_type ≡ some check
    → m.retries ≡ ℤ.pos extra
    → (stop : ℕ) × (slept : ℕ) × (after_find cs n id (ok m) w
        ≡ some (
            after_beat n id m
              (record (check stop m) { monitor_id = id })
              (record w { now = w.now + slept })))
unfolding after_find after_attempts
goes_on cs n id m w check extra on typed tries =
    let pause : ℕ = to_nat m.retry_interval * second in
    let (stop, runs, s) = attempts-Stops (λ i. check i m) pause 0 extra in
    (stop, (stop - 0) * pause, rw (checked cs n id m w check on typed, ap rounds tries, runs))

-- Such checks, run by `RunCheck`.
module _ (cs : Checkers) (n : Bool) (id : String) (m : Monitor) (w : World)
    (check : ℕ → Monitor → Heartbeat) (extra : ℕ) (calm : w.faults ≡ [])
    (found : found_in id w ≡ some m) (on : m.enabled ≡ true) (typed : cs m.check_type ≡ some check)
    (tries : m.retries ≡ ℤ.pos extra) where
  goes_through :
      (stop : ℕ) × (slept : ℕ) × (run_check cs n id w
        ≡ some (
            after_beat n id m
              (record (check stop m) { monitor_id = id })
              (record w { now = w.now + slept })))
  unfolding run_check
  goes_through =
      let (stop, slept, goes) = goes_on cs n id m w check extra on typed tries in
      (stop, slept, rw (looked_up cs n id m w calm found) goes)

  pub after_window :
      ((i : ℕ) → ((check i m).status == "up") ≡ true)
      → ((i : ℕ) → any (covers id (check i m).checked_at) w.db.windows ≡ false)
      → (m.last_status == "down") ≡ false
      → (v : World) × (run_check cs n id w ≡ some v)
        × Silent w v
        × (Option.map (λ x. x.last_status) (found_in id v) ≡ some "up")
  after_window up clear was =
      let (stop, slept, runs) = goes_through in
      let h : Heartbeat = record (check stop m) { monitor_id = id } in
      let w1 : World = record w { now = w.now + slept } in
      let (still, now_found) =
        missed_beat n id m m h w1 calm refl (up stop) (clear stop) found was in
      (
        after_beat n id m h w1,
        runs,
        assumption,
        rw now_found (ap some ((eq_iff h.status "up").0 (up stop))),
      )
