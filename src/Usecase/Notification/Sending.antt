-- ===== src/Usecase/Notification/Sending.antt =====
-- How often a notification is tried, and what is written down.
use mathlib.Core.List.{append_assoc}
use hivepulse.Prelude.{
  ℕ, zero, suc, ◌+◌, String, ◌≡◌, refl, ap, ◌∙◌, true, Option, none, some, List, [], ◌∷◌, ◌++◌,
  arith,
}
use hivepulse.Domain.{ok, Time, Monitor, NotificationChannel, NotificationLog}
use hivepulse.World.{World, Delivery}
use hivepulse.Repo.Logs
use hivepulse.Repo.Logs.{known_event, known_log, log_notification_lem}
use hivepulse.Repo.Notifications.{has_channel}
use hivepulse.Usecase.Notification.{Services, delivery, record_send, send_from, log_of, deliver}

-- The error of a notification whose attempts would go like this.
abbrev pub verdict : Option String → Option String → Option String → Option String
verdict none b c = none
verdict (some e) none c = none
verdict (some e) (some e') c = c

-- How many attempts it takes.
abbrev pub tries : Option String → Option String → ℕ
tries none b = 1
tries (some e) none = 2
tries (some e) (some e') = 3

-- The first deliveries, from attempt `k` on.
abbrev pub deliveries : Services → NotificationChannel → String → Monitor → ℕ → ℕ → List Delivery
deliveries sv ch event m k zero = []
deliveries sv ch event m k (suc n) =
    delivery ch event m (sv.send k ch event m) ∷ deliveries sv ch event m (k + 1) n

abbrev pub with_outbox : World → List Delivery → World
with_outbox w l = record w { outbox = w.outbox ++ l }

done_at :
    (sv : Services) (ch : NotificationChannel) (event : String) (m : Monitor) (k left : ℕ)
    (last : Option String) (w : World)
    → sv.send k ch event m ≡ none
    → send_from sv ch event m k (suc left) last w
      ≡ (none, record_send ch event m (sv.send k ch event m) w)
unfolding send_from
done_at sv ch event m k left last w p = ground arith

failed_at :
    (sv : Services) (ch : NotificationChannel) (event : String) (m : Monitor) (k left : ℕ)
    (last : Option String) (w : World) (e : String)
    → sv.send k ch event m ≡ some e
    → send_from sv ch event m k (suc left) last w
      ≡ send_from sv ch event m
          (k + 1)
          left
          (sv.send k ch event m)
          (record_send ch event m (sv.send k ch event m) w)
unfolding send_from
failed_at sv ch event m k left last w e p = ground arith

last_try :
    (sv : Services) (ch : NotificationChannel) (event : String) (m : Monitor) (k : ℕ)
    (last : Option String) (w : World)
    → send_from sv ch event m k 1 last w
      ≡ (sv.send k ch event m, record_send ch event m (sv.send k ch event m) w)
unfolding send_from
last_try sv ch event m k last w = ground arith

joined :
    (w : World) (l l' : List Delivery) → with_outbox (with_outbox w l) l' ≡ with_outbox w (l ++ l')
joined w l l' =
    ap {B = World} (λ (o : List Delivery). record w { outbox = o }) (append_assoc w.outbox l l')

-- The whole loop, told by the outcomes of the three possible attempts: it returns the verdict, and
-- makes just the deliveries up to the first that goes well, three at most.
pub sends :
    (sv : Services) (ch : NotificationChannel) (event : String) (m : Monitor) (w : World)
    (a b : Option String)
    → sv.send 0 ch event m ≡ a
    → sv.send 1 ch event m ≡ b
    → send_from sv ch event m 0 3 none w
      ≡ (verdict a b (sv.send 2 ch event m), with_outbox w (deliveries sv ch event m 0 (tries a b)))
unfolding send_from
sends sv ch event m w none b p q = done_at sv ch event m 0 2 none w p
sends sv ch event m w (some e) none p q =
    failed_at sv ch event m 0 2 none w e p
    ∙ done_at sv ch event m 1 1 (sv.send 0 ch event m)
        (record_send ch event m (sv.send 0 ch event m) w) q
    ∙ ap (λ o. (none, o)) (joined w (deliveries sv ch event m 0 1) (deliveries sv ch event m 1 1))
sends sv ch event m w (some e) (some e') p q =
    failed_at sv ch event m 0 2 none w e p
    ∙ failed_at sv ch event m 1 1 (sv.send 0 ch event m)
        (record_send ch event m (sv.send 0 ch event m) w) e' q
    ∙ last_try sv ch event m 2 (sv.send 1 ch event m)
        (with_outbox (with_outbox w (deliveries sv ch event m 0 1)) (deliveries sv ch event m 1 1))
    ∙ ap (λ o. (sv.send 2 ch event m, o))
        (joined (with_outbox w (deliveries sv ch event m 0 1)) (deliveries sv ch event m 1 1)
            (deliveries sv ch event m 2 1)
          ∙ joined w (deliveries sv ch event m 0 1) (deliveries sv ch event m 1 2))

-- The row that the outcome is written down in: "sent", or "failed" with the last error.
abbrev pub row_of : String → NotificationChannel → String → Time → Option String → NotificationLog
row_of id ch event now none = record {
  channel_id = ch.id;
  monitor_id = id;
  event = event;
  status = "sent";
  error_msg = "";
  sent_at = now;
}
row_of id ch event now (some e) = record {
  channel_id = ch.id;
  monitor_id = id;
  event = event;
  status = "failed";
  error_msg = e;
  sent_at = now;
}

known :
    (id : String) (ch : NotificationChannel) (event : String) (last : Option String)
    → known_event event ≡ true
    → known_log (log_of id ch event last) ≡ true
known id ch event none told = ground arith
known id ch event (some x) told = ground arith

recorded :
    (id : String) (ch : NotificationChannel) (event : String) (last : Option String) (w : World)
    → w.faults ≡ []
    → has_channel w.db ch.id ≡ true
    → known_event event ≡ true
    → (Logs.log_notification (log_of id ch event last) w).1
      ≡ record w { db = record w.db { logs = w.db.logs ++ row_of id ch event w.now last ∷ [] } }
recorded id ch event none w calm here told =
    ap (λ r. r.1)
      (log_notification_lem (log_of id ch event none) w calm here (known id ch event none told))
recorded id ch event (some e) w calm here told =
    ap (λ r. r.1)
      (log_notification_lem (log_of id ch event (some e)) w calm here
        (known id ch event (some e) told))

-- Without faults of the database, for one of the three events, a monitor that was looked up and a
-- channel in the table: `deliver` makes just the deliveries up to the first that goes well, three at
-- most, and writes down one row, "sent" if one went well, and else "failed" with the last error. Nothing
-- else changes.
pub deliver_lem :
    (sv : Services) (id : String) (ch : NotificationChannel) (event : String) (m : Monitor)
    (w : World)
    → w.faults ≡ []
    → has_channel w.db ch.id ≡ true
    → known_event event ≡ true
    → deliver sv id ch event (ok m) w ≡ record w {
      db = record w.db {
        logs =
            w.db.logs
            ++ row_of id ch event w.now
                (verdict (sv.send 0 ch event m) (sv.send 1 ch event m) (sv.send 2 ch event m))
              ∷ [];
      };
      outbox =
          w.outbox
          ++ deliveries sv ch event m 0 (tries (sv.send 0 ch event m) (sv.send 1 ch event m));
    }
unfolding deliver
deliver_lem sv id ch event m w calm here told =
    let a = sv.send 0 ch event m in
    let b = sv.send 1 ch event m in
    ap (λ p. (Logs.log_notification (log_of id ch event p.0) p.1).1)
      (sends sv ch event m w a b refl refl)
    ∙ recorded id ch event (verdict a b (sv.send 2 ch event m))
        (with_outbox w (deliveries sv ch event m 0 (tries a b))) calm here told
