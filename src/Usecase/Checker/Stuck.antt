-- ===== src/Usecase/Checker/Stuck.antt =====
-- Two checks of one monitor that overlap, of which the later one to write read the row first.
use hivepulse.Prelude.{
  ℕ, ◌+◌, String, ◌==◌, ◌≡◌, refl, sym, ap, ◌∙◌, Bool, true, false, ◌||◌, some, [], ◌∷◌, any, arith,
  ℤ, eq_iff,
}
use mathlib.Core.Option
use hivepulse.Domain.{ok, Time, Monitor, Heartbeat}
use hivepulse.World.{World}
use hivepulse.Tasks.{done, run, Leads, both_start}
use hivepulse.Repo.Monitors
use hivepulse.Repo.Monitors.{with_status}
use hivepulse.Repo.Incidents
use hivepulse.Repo.Incidents.{open_of}
use hivepulse.Repo.Windows.{covers}
use hivepulse.Repo.Rows.{find-any}
use hivepulse.Usecase.Checker.{Checkers, transition, settle, after_beat, run_check, broadcast}
use hivepulse.Usecase.Checker.Steps.{found_in, has_open, looked_up, with_beat}
use hivepulse.Usecase.Checker.Tracks.{after_beat-settle, after_beat_tracks}
use hivepulse.Usecase.Checker.Recovery.{missed_beat, goes_on, after_window}
use hivepulse.Usecase.Checker.Task.{outcome, found_task, check_task, found_task_lem}

outcome-some : (p : Bool × World) {v : World} → outcome p ≡ some v → p ≡ (true, v)
outcome-some (true, w) e = ground arith
outcome-some (false, w) e = cc

settle_rest :
    (n : Bool) (id : String) (m : Monitor) (h : Heartbeat) (w : World)
    → w.faults ≡ []
    → ((settle n id m h w).faults ≡ []) × ((settle n id m h w).db.windows ≡ w.db.windows)
unfolding settle transition broadcast Monitors.update_last_status Incidents.create Incidents.resolve
settle_rest n id m h w calm = ground arith

up_not_down : (s : String) → (s == "up") ≡ true → (s == "down") ≡ false
up_not_down s h = ground (arith, eq_iff s "up", eq_iff s "down", eq_iff "up" "down")

-- The rest of a check, from the row that it read on.
rest_of_check :
    (cs : Checkers) (n : Bool) (id : String) (m : Monitor) (w : World)
    (check : ℕ → Monitor → Heartbeat) (extra : ℕ)
    → m.enabled ≡ true
    → cs m.check_type ≡ some check
    → m.retries ≡ ℤ.pos extra
    → (stop : ℕ) × (slept : ℕ) × (run (found_task cs n id (ok m)) w ≡ (
      true,
      after_beat n id m
          (record (check stop m) { monitor_id = id })
          (record w { now = w.now + slept }),
    ))
rest_of_check cs n id m w check extra on typed tries =
    let (stop, slept, goes) = goes_on cs n id m w check extra on typed tries in
    (
      stop,
      slept,
      outcome-some (run (found_task cs n id (ok m)) w) (found_task_lem cs n id (ok m) w ∙ goes),
    )

module _ (cs cs' : Checkers) (n : Bool) (id : String) (m : Monitor) (w : World)
    (down up : ℕ → Monitor → Heartbeat) (extra : ℕ) (calm : w.faults ≡ [])
    (found : found_in id w ≡ some m) (on : m.enabled ≡ true) (tries : m.retries ≡ ℤ.pos extra)
    (was : (m.last_status == "down") ≡ false) (typed : cs m.check_type ≡ some down)
    (typed' : cs' m.check_type ≡ some up) where
  -- What the check that finds the monitor down leaves.
  record Fell (v : World) : Type 0 where
    pub ends : run (found_task cs n id (ok m)) w ≡ (true, v)
    pub calm_still : v.faults ≡ []
    pub windows_still : v.db.windows ≡ w.db.windows
    pub opened : has_open id v ≡ true
    pub status : String
    pub at : Time
    pub row_found : found_in id v ≡ some (with_status status at m)

  falls :
      has_open id w ≡ false
      → ((i : ℕ) → ((down i m).status == "down") ≡ true)
      → ((i : ℕ) → any (covers id (down i m).checked_at) w.db.windows ≡ false)
      → (v : World) × Fell v
  falls closed is_down clear =
      let (stop, slept, ends) = rest_of_check cs n id m w down extra on typed tries in
      let h : Heartbeat = record (down stop m) { monitor_id = id } in
      let w1 : World = record w { now = w.now + slept } in
      let fits : (h.status == "up" || h.status == "down") ≡ true = ground (arith, is_down stop) in
      let known = find-any id w1.db.monitors m found in
      let settled = after_beat-settle n id m h w1 calm known fits (clear stop) in
      let (open_after, row_after) =
        after_beat_tracks cs n id m w1 calm found (closed ∙ sym was) h refl fits (clear stop) in
      let (calm1, windows1) = settle_rest n id m h (with_beat h w1) calm in
      (
        after_beat n id m h w1,
        record {
          ends = ends;
          calm_still = ap (λ (x : World). x.faults) settled ∙ calm1;
          windows_still = ap (λ (x : World). x.db.windows) settled ∙ windows1;
          opened = open_after ∙ is_down stop;
          status = h.status;
          at = w1.now;
          row_found = row_after;
        },
      )

  -- The same outage is opened by one check and missed by the other, which overlaps with it: both read a
  -- row whose status is not "down" and which has no open incident; then the first finds the monitor down
  -- and ends, and the second, whose attempts find it up, ends after it. In that order of the statements
  -- the status is "up" and the incident open. It stays so through the next check that finds the monitor
  -- up, at whatever time, and no recovery is announced. The database has no faults, the monitor is
  -- enabled, with a number of retries that is not negative, and not in a maintenance window.
  pub overlap_leaves_open :
      (t : Time)
      → has_open id w ≡ false
      → ((i : ℕ) → ((down i m).status == "down") ≡ true)
      → ((i : ℕ) (k : Monitor) → ((up i k).status == "up") ≡ true)
      → ((i : ℕ) → any (covers id (down i m).checked_at) w.db.windows ≡ false)
      → ((i : ℕ) (k : Monitor) → any (covers id (up i k).checked_at) w.db.windows ≡ false)
      → (v : World) × (v2 : World) × Leads
          (check_task cs n id ∷ check_task cs' n id ∷ [])
          w
          (done true ∷ done true ∷ [])
          v
        × (run_check cs' n id (record v { now = t }) ≡ some v2)
        × (has_open id v2 ≡ true)
        × (Option.map (λ x. x.last_status) (found_in id v2) ≡ some "up")
        × (v2.spawned ≡ v.spawned)
  unfolding check_task
  overlap_leaves_open t closed is_down is_up clear clear' =
      let (v1, fell) = falls closed is_down clear in
      let (stop, slept, ends) = rest_of_check cs' n id m v1 up extra on typed' tries in
      let h : Heartbeat = record (up stop m) { monitor_id = id } in
      let w2 : World = record v1 { now = v1.now + slept } in
      let v : World = after_beat n id m h w2 in
      let row : Monitor = with_status fell.status fell.at m in
      let (still, row_after) =
        missed_beat n id m row h w2 fell.calm_still refl (is_up stop m)
          (rw fell.windows_still (clear' stop m)) fell.row_found was in
      let row2 : Monitor = with_status h.status w2.now row in
      let (v2, goes, still2, up2) =
        after_window cs' n id row2 (record v { now = t }) up extra (still.faults ∙ fell.calm_still)
          row_after on typed' tries (λ i. is_up i row2)
          (λ i. rw (still.windows, fell.windows_still) (clear' i row2))
          (up_not_down h.status (is_up stop m)) in
      (
        v,
        v2,
        both_start (Monitors.find_by_id id) (found_task cs n id) (Monitors.find_by_id id)
            (found_task cs' n id) w (looked_up cs n id m w calm found)
            (looked_up cs' n id m w calm found) fell.ends ends,
        goes,
        ap (any (open_of id)) (still2.incidents ∙ still.incidents) ∙ fell.opened,
        up2,
        still2.spawned,
      )
