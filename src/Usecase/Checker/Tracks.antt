-- ===== src/Usecase/Checker/Tracks.antt =====
-- Outside maintenance and with a database that works, a check keeps the incidents in step with the
-- status: a monitor has an open incident exactly when its last status is "down".
use hivepulse.Prelude.{
  String, ◌==◌, ◌≡◌, refl, Bool, true, false, ◌||◌, some, [], any, ◌∙◌, arith, eq_iff,
}
use mathlib.Core.Option
use hivepulse.Domain.{Monitor, Heartbeat}
use hivepulse.World.{World}
use hivepulse.Repo.Monitors
use hivepulse.Repo.Monitors.{with_status}
use hivepulse.Repo.Incidents
use hivepulse.Repo.Incidents.{open_of}
use hivepulse.Repo.Windows.{covers}
use hivepulse.Repo.Rows.{open-resolve_self, find-any, open-snoc}
use hivepulse.Usecase.Checker.{Checkers, incident_of, transition, settle, after_beat}
use hivepulse.Usecase.Checker.Steps.{
  found_in, has_open, broadcast-db, status_set, with_beat, beat_kept, not_in_maintenance,
}

-- The incident table after a change of status.
transition_tracks :
    (n : Bool) (id : String) (m : Monitor) (h : Heartbeat) (w : World)
    → w.faults ≡ []
    → any (λ x. x.id == id) w.db.monitors ≡ true
    → (h.status == "up" || h.status == "down") ≡ true
    → has_open id w ≡ (m.last_status == "down")
    → has_open id (transition n id m h w) ≡ (h.status == "down")
unfolding transition Incidents.create Incidents.resolve
transition_tracks n id m h w calm known fits agrees = ground (
  arith,
  open-snoc (incident_of id m h) w.db.incidents refl,
  open-resolve_self id h.checked_at w.db.incidents,
  eq_iff h.status "up",
  eq_iff h.status "down",
  eq_iff "up" "down",
)

transition-monitors :
    (n : Bool) (id : String) (m : Monitor) (h : Heartbeat) (w : World)
    → (transition n id m h w).db.monitors ≡ w.db.monitors
unfolding transition Incidents.create Incidents.resolve
transition-monitors n id m h w = ground arith

settle_tracks :
    (n : Bool) (id : String) (m : Monitor) (h : Heartbeat) (w : World)
    → w.faults ≡ []
    → (h.status == "up" || h.status == "down") ≡ true
    → found_in id w ≡ some m
    → has_open id w ≡ (m.last_status == "down")
    → (has_open id (settle n id m h w) ≡ (h.status == "down"))
      × (found_in id (settle n id m h w) ≡ some (with_status h.status w.now m))
unfolding settle
settle_tracks n id m h w calm fits found agrees =
    let w1 : World = (Monitors.update_last_status id h.status w).1 in
    let (calm1, same, now_found) = status_set id h.status m w calm fits found in
    let known : any (λ x. x.id == id) w1.db.monitors ≡ true =
      find-any id w1.db.monitors _ now_found in
    (
      rw broadcast-db (transition_tracks n id m h w1 calm1 known fits (same ∙ agrees)),
      rw (broadcast-db, transition-monitors) now_found,
    )

pub after_beat-settle :
    (n : Bool) (id : String) (m : Monitor) (h : Heartbeat) (w : World)
    → w.faults ≡ []
    → any (λ x. x.id == h.monitor_id) w.db.monitors ≡ true
    → (h.status == "up" || h.status == "down") ≡ true
    → any (covers id h.checked_at) w.db.windows ≡ false
    → after_beat n id m h w ≡ settle n id m h (with_beat h w)
unfolding after_beat
after_beat-settle n id m h w calm known fits clear = ground (
  arith,
  beat_kept h w calm fits known,
  not_in_maintenance id h.checked_at (with_beat h w) calm clear,
)

module _ (cs : Checkers) (n : Bool) (id : String) (m : Monitor) (w : World) (calm : w.faults ≡ [])
    (found : found_in id w ≡ some m) (agrees : has_open id w ≡ (m.last_status == "down")) where
  pub after_beat_tracks :
      (h : Heartbeat)
      → h.monitor_id ≡ id
      → (h.status == "up" || h.status == "down") ≡ true
      → any (covers id h.checked_at) w.db.windows ≡ false
      → (has_open id (after_beat n id m h w) ≡ (h.status == "down"))
        × (found_in id (after_beat n id m h w) ≡ some (with_status h.status w.now m))
  after_beat_tracks h named fits clear =
      let known : any (λ x. x.id == h.monitor_id) w.db.monitors ≡ true =
        rw named (find-any id w.db.monitors m found) in
      rw (after_beat-settle n id m h w calm known fits clear)
        (settle_tracks n id m h (with_beat h w) calm fits found agrees)
