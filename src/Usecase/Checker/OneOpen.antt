-- ===== src/Usecase/Checker/OneOpen.antt =====
-- At most one open incident for each monitor, through every check and whatever the database does.
use hivepulse.Prelude.{
  ℕ, ◌≤◌, String, ◌≡◌, Bool, false, ◌&&◌, Option, none, some, List, [], ◌∷◌, ◌++◌, length, any,
  select, length-append, select-append, arith, eq_iff, Holds, Holds-some, Bool-cases, Option-cases,
  inl, inr,
}
use hivepulse.Domain.{Result, ok, err, Time, Monitor, Heartbeat, Incident}
use hivepulse.World.{World, HeartbeatEvent}
use hivepulse.Repo.Monitors
use hivepulse.Repo.Heartbeats
use hivepulse.Repo.Incidents
use hivepulse.Repo.Windows
use hivepulse.Repo.Incidents.{open_of, is_open, resolved_with}
use hivepulse.Repo.Rows.{length-select_none, open-resolve-le}
use hivepulse.Usecase.Checker.{
  Checkers, transition, settle, keep_quiet, after_beat, after_attempts, check_found, after_find,
  run_check, broadcast, incident_of,
}

-- The promise of the unique index on open incidents.
pub record OneOpen (w : World) : Type 0 where
  pub at : (k : String) → length (select (open_of k) w.db.incidents) ≤ 1

open-snoc-le :
    (i : Incident) (l : List Incident) (k : String)
    → (is_open i && any (open_of i.monitor_id) l) ≡ false
    → length (select (open_of k) l) ≤ 1
    → length (select (open_of k) (l ++ i ∷ [])) ≤ 1
open-snoc-le i l k h few = ground (
  arith,
  select-append (open_of k) l (i ∷ []),
  length-append (select (open_of k) l) (select (open_of k) (i ∷ [])),
  length-select_none (open_of k) l,
  eq_iff i.monitor_id k,
)

pub create-OneOpen : (i : Incident) (w : World) → OneOpen w → OneOpen (Incidents.create i w).1
unfolding Incidents.create
create-OneOpen i w h = record { at = λ k. ground (arith, open-snoc-le i w.db.incidents k, h.at k) }

pub resolve-OneOpen :
    (id : String) (t : Time) (w : World) → OneOpen w → OneOpen (Incidents.resolve id t w).1
unfolding Incidents.resolve
resolve-OneOpen id t w h = record {
  at = λ k. ground (arith, open-resolve-le k id t w.db.incidents, h.at k);
}

-- The other statements of a check leave the incidents alone.
pub status-OneOpen :
    (id s : String) (w : World) → OneOpen w → OneOpen (Monitors.update_last_status id s w).1
unfolding Monitors.update_last_status
status-OneOpen id s w h = record { at = λ k. ground (arith, h.at k) }

pub beat-OneOpen : (h : Heartbeat) (w : World) → OneOpen w → OneOpen (Heartbeats.create h w).1
unfolding Heartbeats.create
beat-OneOpen b w h = record { at = λ k. ground (arith, h.at k) }

pub maintenance-OneOpen :
    (id : String) (t : Time) (w : World)
    → OneOpen w
    → OneOpen (Windows.is_monitor_in_maintenance id t w).1
unfolding Windows.is_monitor_in_maintenance
maintenance-OneOpen id t w h = record { at = λ k. ground (arith, h.at k) }

pub find-OneOpen : (id : String) (w : World) → OneOpen w → OneOpen (Monitors.find_by_id id w).1
unfolding Monitors.find_by_id
find-OneOpen id w h = record { at = λ k. ground (arith, h.at k) }

-- So do a broadcast and a sleep.
same-OneOpen : (w v : World) → w.db.incidents ≡ v.db.incidents → OneOpen w → OneOpen v
same-OneOpen w v e h = record { at = λ k. rw (← e) (h.at k) }

pub broadcast-OneOpen : (e : HeartbeatEvent) (w : World) → OneOpen w → OneOpen (broadcast e w)
unfolding broadcast
broadcast-OneOpen e w = same-OneOpen w (broadcast e w) (ground arith)

transition-OneOpen :
    (n : Bool) (id : String) (m : Monitor) (h : Heartbeat) (w : World)
    → OneOpen w
    → OneOpen (transition n id m h w)
unfolding transition
transition-OneOpen n id m h w one = record {
  at = λ k. ground (
    arith,
    (create-OneOpen (incident_of id m h) w one).at k,
    (resolve-OneOpen id h.checked_at w one).at k,
    one.at k,
  );
}

settle-OneOpen :
    (n : Bool) (id : String) (m : Monitor) (h : Heartbeat) (w : World)
    → OneOpen w
    → OneOpen (settle n id m h w)
unfolding settle
settle-OneOpen n id m h w one =
    broadcast-OneOpen _ _ (transition-OneOpen n id m h _ (status-OneOpen id h.status w one))

quiet-OneOpen : (id : String) (h : Heartbeat) (w : World) → OneOpen w → OneOpen (keep_quiet id h w)
unfolding keep_quiet
quiet-OneOpen id h w one = broadcast-OneOpen _ _ (status-OneOpen id "maintenance" w one)

after_beat-OneOpen :
    (n : Bool) (id : String) (m : Monitor) (h : Heartbeat) (w : World)
    → OneOpen w
    → OneOpen (after_beat n id m h w)
unfolding after_beat
after_beat-OneOpen n id m h w one =
    let w1 : World = (Heartbeats.create h w).1 in
    let w2 : World = (Windows.is_monitor_in_maintenance id h.checked_at w1).1 in
    let one1 : OneOpen w1 = beat-OneOpen h w one in
    let one2 : OneOpen w2 = maintenance-OneOpen id h.checked_at w1 one1 in
    record {
      at = λ k. ground (
        arith,
        one1.at k,
        (quiet-OneOpen id h w2 one2).at k,
        (settle-OneOpen n id m h w2 one2).at k,
      );
    }

after_attempts-OneOpen :
    (n : Bool) (id : String) (m : Monitor) (o : Option Heartbeat × ℕ) (w : World)
    → OneOpen w
    → Holds OneOpen (after_attempts n id m o w)
unfolding after_attempts
after_attempts-OneOpen n id m (none, slept) w one = tt
after_attempts-OneOpen n id m (some h, slept) w one =
    after_beat-OneOpen n id m _ _ (record { at = one.at })

check_found-OneOpen :
    (cs : Checkers) (n : Bool) (id : String) (m : Monitor) (w : World)
    → OneOpen w
    → Holds OneOpen (check_found cs n id m w)
unfolding check_found
check_found-OneOpen cs n id m w one = elim (Bool-cases m.enabled) [
  | inr off ↦ rw off one
  | inl on ↦ rw on (elim (Option-cases (cs m.check_type)) [
    | inl missing ↦ rw missing one
    | inr (check, found) ↦ rw found (after_attempts-OneOpen n id m _ w one)
  ])
]

after_find-OneOpen :
    (cs : Checkers) (n : Bool) (id : String) (r : Result Monitor) (w : World)
    → OneOpen w
    → Holds OneOpen (after_find cs n id r w)
unfolding after_find
after_find-OneOpen cs n id (err e) w one = one
after_find-OneOpen cs n id (ok m) w one = check_found-OneOpen cs n id m w one

-- Whatever faults the database has, a check leaves at most one open incident for each monitor, if that
-- held before it.
pub run_check-OneOpen :
    (cs : Checkers) (n : Bool) (id : String) (w v : World)
    → OneOpen w
    → run_check cs n id w ≡ some v
    → OneOpen v
unfolding run_check
run_check-OneOpen cs n id w v one e =
    Holds-some OneOpen _ (after_find-OneOpen cs n id _ _ (find-OneOpen id w one)) e
