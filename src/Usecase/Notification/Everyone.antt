-- ===== src/Usecase/Notification/Everyone.antt =====
-- The global channels are told of a monitor that has no channels of its own.
use hivepulse.Prelude.{
  String, ◌==◌, ◌≡◌, refl, ap, ◌∙◌, true, false, ◌&&◌, some, List, [], ◌∷◌, ◌++◌, any, all, find,
  select, all_self, all-select, eq_refl, arith,
}
use hivepulse.Domain.{ok, Monitor, NotificationChannel}
use hivepulse.World.{Db, World, Assignment, fetch_calm}
use hivepulse.Repo.Monitors
use hivepulse.Repo.Logs.{known_event}
use hivepulse.Repo.Notifications
use hivepulse.Repo.Notifications.{
  has_channel, join_channels, global_channels, untriggered, map_untriggered, or_global,
}
use hivepulse.Usecase.Notification.{
  Services, cooling, off_schedule, deliver, notify_channel, notify_all, notify_found, notify,
}
use hivepulse.Usecase.Notification.Sending.{verdict, tries, deliveries, row_of, deliver_lem}

-- The enabled global channels.
abbrev pub globals : Db → List NotificationChannel
globals d = select (λ c. c.is_global && c.enabled) d.channels

unjoined :
    (id : String) (chs : List NotificationChannel) (l : List Assignment)
    → any (λ a. a.monitor_id == id) l ≡ false
    → join_channels id chs l ≡ []
unfolding join_channels
unjoined id chs [] h = refl
unjoined id chs (a ∷ l) h = ground (arith, unjoined id chs l)

channels_calm :
    (id : String) (w : World)
    → w.faults ≡ []
    → any (λ a. a.monitor_id == id) w.db.assignments ≡ false
    → Notifications.get_channels_for_monitor id w ≡ (ok (map_untriggered (globals w.db)), w)
unfolding Notifications.get_channels_for_monitor global_channels
channels_calm id w calm unassigned =
    ap (λ r. or_global id r.0 r.1)
      (fetch_calm (λ d. ok (join_channels id d.channels d.assignments)) w calm)
    ∙ ap (λ l. or_global id (ok l) w) (unjoined id w.db.channels w.db.assignments unassigned)
    ∙ fetch_calm (λ d. ok (global_channels id d)) w calm
    ∙ rw unassigned refl

module _ (sv : Services) (id event : String) (m : Monitor) where
  -- One channel has been told: its deliveries, and the row that is written down.
  abbrev pub told_one : NotificationChannel → World → World
  told_one ch w = record w {
    db = record w.db {
      logs =
          w.db.logs
          ++ row_of id ch event w.now
              (verdict (sv.send 0 ch event m) (sv.send 1 ch event m) (sv.send 2 ch event m))
            ∷ [];
    };
    outbox =
        w.outbox
        ++ deliveries sv ch event m 0 (tries (sv.send 0 ch event m) (sv.send 1 ch event m));
  }

  abbrev pub told_all : List NotificationChannel → World → World
  told_all [] w = w
  told_all (ch ∷ chs) w = told_all chs (told_one ch w)

  module _ (told : known_event event ≡ true) where
    found_calm :
        (w : World)
        → w.faults ≡ []
        → find (λ x. x.id == id) w.db.monitors ≡ some m
        → Monitors.find_by_id id w ≡ (ok m, w)
    unfolding Monitors.find_by_id
    found_calm w calm found = ground arith

    channel_told :
        (ch : NotificationChannel) (w : World)
        → w.faults ≡ []
        → find (λ x. x.id == id) w.db.monitors ≡ some m
        → has_channel w.db ch.id ≡ true
        → notify_channel sv id (untriggered ch) event w ≡ told_one ch w
    unfolding notify_channel cooling off_schedule
    channel_told ch w calm found here =
        ap (λ r. deliver sv id ch event r.0 r.1) (found_calm w calm found)
        ∙ deliver_lem sv id ch event m w calm here told

    all_told :
        (chs : List NotificationChannel) (w : World)
        → w.faults ≡ []
        → find (λ x. x.id == id) w.db.monitors ≡ some m
        → all (λ c. has_channel w.db c.id) chs ≡ true
        → notify_all sv id (map_untriggered chs) event w ≡ told_all chs w
    unfolding notify_all
    all_told [] w calm found here = refl
    all_told (ch ∷ chs) w calm found here =
        ap (λ v. notify_all sv id (map_untriggered chs) event v)
          (channel_told ch w calm found (ground arith))
        ∙ all_told chs (told_one ch w) calm found (ground arith)

    -- Without faults of the database, an event of a stored monitor that has no channel assigned
    -- is told to each enabled global channel, one after the other, and nothing else changes.
    pub notify_lem :
        (w : World)
        → w.faults ≡ []
        → find (λ x. x.id == id) w.db.monitors ≡ some m
        → any (λ a. a.monitor_id == id) w.db.assignments ≡ false
        → notify sv id event w ≡ told_all (globals w.db) w
    unfolding notify
    notify_lem w calm found unassigned =
        ap (λ r. notify_found sv id r.0 event r.1) (channels_calm id w calm unassigned)
        ∙ all_told (globals w.db) w calm found (
            all-select (λ c. has_channel w.db c.id) (λ c. c.is_global && c.enabled) w.db.channels
              (all_self (λ a b. a.id == b.id) (λ c. eq_refl c.id) w.db.channels))
