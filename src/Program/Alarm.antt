-- ===== src/Program/Alarm.antt =====
-- From a check to the channels: an outage is found, and the notification that the check starts is made.
use hivepulse.Prelude.{
  ℕ, ◌+◌, String, ◌==◌, ◌≡◌, refl, sym, ap, ◌∙◌, true, false, ◌||◌, some, [], ◌∷◌, ◌++◌, any,
  select, ◌&&◌, arith, ℤ,
}
use hivepulse.Domain.{Monitor, Heartbeat}
use hivepulse.World.{World}
use hivepulse.Repo.Monitors
use hivepulse.Repo.Monitors.{with_status}
use hivepulse.Repo.Incidents
use hivepulse.Repo.Windows.{covers}
use hivepulse.Repo.Rows.{find-any}
use hivepulse.Usecase.Checker.{Checkers, transition, settle, after_beat, run_check, broadcast}
use hivepulse.Usecase.Checker.Steps.{found_in, has_open, looked_up, with_beat}
use hivepulse.Usecase.Checker.Tracks.{after_beat-settle, after_beat_tracks}
use hivepulse.Usecase.Checker.Recovery.{goes_on}
use hivepulse.Usecase.Notification.{Services, notify}
use hivepulse.Usecase.Notification.Everyone.{globals, told_all, notify_lem}

-- What the end of a check leaves of the notifications and the channels.
record Alarmed (id : String) (w v : World) : Type 0 where
  pub calm : v.faults ≡ []
  pub started : v.spawned ≡ w.spawned ++ record { monitor_id = id; event = "down" } ∷ []
  pub channels : v.db.channels ≡ w.db.channels
  pub assignments : v.db.assignments ≡ w.db.assignments

settle-Alarmed :
    (id : String) (m : Monitor) (h : Heartbeat) (w : World)
    → w.faults ≡ []
    → (m.last_status == "down") ≡ false
    → (h.status == "down") ≡ true
    → Alarmed id w (settle true id m h w)
unfolding settle transition broadcast Monitors.update_last_status Incidents.create
settle-Alarmed id m h w calm was down = ground arith

-- An outage is told to everyone: if the database works, a check of an enabled monitor of a known type that
-- was not down and has no open incident, with a number of retries that is not negative, whose attempts all
-- find it down outside of its maintenance windows, goes through, opens an incident, and starts one
-- notification of the outage. Made with any senders, this tells each enabled global channel, one after the
-- other, and changes nothing else, if the monitor has no channel assigned.
pub outage_is_told :
    (cs : Checkers) (sv : Services) (id : String) (m : Monitor) (w : World)
    (check : ℕ → Monitor → Heartbeat) (extra : ℕ)
    → w.faults ≡ []
    → found_in id w ≡ some m
    → m.enabled ≡ true
    → m.retries ≡ ℤ.pos extra
    → cs m.check_type ≡ some check
    → (m.last_status == "down") ≡ false
    → has_open id w ≡ false
    → ((i : ℕ) → ((check i m).status == "down") ≡ true)
    → ((i : ℕ) → any (covers id (check i m).checked_at) w.db.windows ≡ false)
    → any (λ a. a.monitor_id == id) w.db.assignments ≡ false
    → (v : World) × (row : Monitor) × (run_check cs true id w ≡ some v)
      × (found_in id v ≡ some row)
      × (has_open id v ≡ true)
      × (v.spawned ≡ w.spawned ++ record { monitor_id = id; event = "down" } ∷ [])
      × (notify sv id "down" v ≡ told_all sv id "down" row (globals w.db) v)
unfolding run_check
outage_is_told cs sv id m w check extra calm found on tries typed was closed down clear unassigned =
    let (stop, slept, goes) = goes_on cs true id m w check extra on typed tries in
    let h : Heartbeat = record (check stop m) { monitor_id = id } in
    let w1 : World = record w { now = w.now + slept } in
    let v : World = after_beat true id m h w1 in
    let fits : (h.status == "up" || h.status == "down") ≡ true = ground (arith, down stop) in
    let settled =
      after_beat-settle true id m h w1 calm (find-any id w1.db.monitors m found) fits
        (clear stop) in
    let (open_after, row_after) =
      after_beat_tracks cs true id m w1 calm found (closed ∙ sym was) h refl fits (clear stop) in
    let alarmed : Alarmed id (with_beat h w1) (settle true id m h (with_beat h w1)) =
      settle-Alarmed id m h (with_beat h w1) calm was (down stop) in
    let same_channels : v.db.channels ≡ w.db.channels =
      ap (λ (x : World). x.db.channels) settled ∙ alarmed.channels in
    let same_assignments : v.db.assignments ≡ w.db.assignments =
      ap (λ (x : World). x.db.assignments) settled ∙ alarmed.assignments in
    let row : Monitor = with_status h.status w1.now m in
    (
      v,
      row,
      rw (looked_up cs true id m w calm found) goes,
      row_after,
      open_after ∙ down stop,
      ap (λ (x : World). x.spawned) settled ∙ alarmed.started,
      notify_lem sv id "down" row refl v (ap (λ (x : World). x.faults) settled ∙ alarmed.calm)
            row_after (rw same_assignments unassigned)
          ∙ ap (λ chs. told_all sv id "down" row (select (λ c. c.is_global && c.enabled) chs) v)
              same_channels,
    )
