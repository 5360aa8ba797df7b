-- ===== src/Usecase/Notification/Cooldown.antt =====
-- When a channel is not told.
use hivepulse.Prelude.{
  ℕ, ◌+◌, ◌*◌, ◌%◌, ◌^◌, ◌≤◌, ◌<◌, String, ◌≡◌, refl, Bool, true, ◌&&◌, List, [], ◌∷◌, any, select,
  leb, ℤ, signed_64, arith,
}
use hivepulse.Domain.{
  ok, Time, minute, NotificationLog, AssignmentTriggers, MonitorChannelAssignment,
  NotificationChannel,
}
use hivepulse.World.{World, fetch_calm}
use hivepulse.Repo.Notifications
use hivepulse.Repo.Notifications.{latest, sent_to}
use hivepulse.Usecase.Notification.{Services, too_recent, cooling, notify_channel}

-- A row that meets the clause, and was sent at `t` or later.
abbrev sent_since : (NotificationLog → Bool) → Time → NotificationLog → Bool
sent_since p t l = p l && leb t l.sent_at

latest-le :
    (p : NotificationLog → Bool) (t : Time) (l : List NotificationLog)
    → any (sent_since p t) l ≡ true
    → t ≤ latest (select p l)
latest-le p t [] h = cc
latest-le p t (x ∷ l) h = ground (arith, latest-le p t l)

fetched :
    (id channel : String) (w : World)
    → w.faults ≡ []
    → Notifications.last_sent_at id channel w
      ≡ (ok (latest (select (sent_to id channel) w.db.logs)), w)
unfolding Notifications.last_sent_at
fetched id channel w calm =
    fetch_calm (λ d. ok (latest (select (sent_to id channel) d.logs))) w calm

words : (n : ℕ) → n < 2 ^ 63 → signed_64 (n % 2 ^ 64) ≡ ℤ.pos n
words n small = ground arith

too_recent_lem :
    (now last minutes : ℕ) (a : AssignmentTriggers)
    → a.cooldown_minutes ≡ ℤ.pos minutes
    → minutes * minute < 2 ^ 63
    → 1 ≤ last
    → now < last + minutes * minute
    → too_recent now a (ok last) ≡ true
too_recent_lem now last minutes a set small old soon =
    rw (set, words (minutes * minute) small) (ground arith)

cooling_lem :
    (id : String) (ch : NotificationChannel) (a : AssignmentTriggers) (w : World) (minutes : ℕ)
    → w.faults ≡ []
    → a.cooldown_minutes ≡ ℤ.pos minutes
    → minutes * minute < 2 ^ 63
    → 1 ≤ minutes
    → 1 ≤ latest (select (sent_to id ch.id) w.db.logs)
    → w.now < latest (select (sent_to id ch.id) w.db.logs) + minutes * minute
    → cooling id ch a w ≡ (true, w)
unfolding cooling
cooling_lem id ch a w minutes calm set small some_min some_time soon =
    rw (fetched id ch.id w calm) (
      ground (
        arith,
        too_recent_lem w.now (latest (select (sent_to id ch.id) w.db.logs)) minutes a set small
            some_time soon,
      ))

-- Without faults of the database: if the channel has a cooldown whose nanoseconds fit into 64 bits with
-- a sign (about 292 years), a notification of the monitor was sent to it at `t` or later, where `t` is
-- past the zero time, and less than the cooldown has passed since `t`, then the channel is not told of
-- any event, and nothing at all changes.
pub cooldown_holds :
    (sv : Services) (id : String) (a : MonitorChannelAssignment) (event : String) (w : World)
    (t minutes : ℕ)
    → w.faults ≡ []
    → a.triggers.cooldown_minutes ≡ ℤ.pos minutes
    → minutes * minute < 2 ^ 63
    → 1 ≤ minutes
    → 1 ≤ t
    → any (sent_since (sent_to id a.channel.id) t) w.db.logs ≡ true
    → w.now < t + minutes * minute
    → notify_channel sv id a event w ≡ w
unfolding notify_channel
cooldown_holds sv id a event w t minutes calm set small some_min after sent recent =
    let late = latest-le (sent_to id a.channel.id) t w.db.logs sent in
    rw
      (cooling_lem id a.channel a.triggers w minutes calm set small some_min (omega arith)
        (omega arith))
      refl
