-- ===== src/Repo/Logs.antt =====
-- internal/adapter/repo/notification_repo.go: the statements on notification_logs.
use hivepulse.Prelude.{
  ◌*◌, ◌+◌, ◌-◌, String, ◌==◌, ◌≡◌, ◌∙◌, refl, Bool, true, not, ◌&&◌, ◌||◌, List, [], ◌∷◌, ◌++◌,
  length, any, find, map, none, some, select, take, order_by, leb, ltb, if◌then◌else◌,
}
use hivepulse.Domain.{
  Result, ok, err, other, Time, minute, Monitor, NotificationChannel, NotificationLog,
  ReminderTarget,
}
use hivepulse.World.{Db, World, Action, query, query_calm, fetch}
use hivepulse.Repo.Notifications.{has_channel, assigned, latest}

-- The CHECKs on `event` and `status`.
abbrev pub known_event : String → Bool
known_event event = event == "down" || event == "up" || event == "ssl_expiry"

abbrev pub known_log : NotificationLog → Bool
known_log l = known_event l.event && (l.status == "sent" || l.status == "failed")

abbrev insert_log : NotificationLog → Time → Db → Result (Unit {0}) × Db
insert_log l now d =
    if has_channel d l.channel_id && known_log l
    then (ok tt, record d { logs = d.logs ++ record l { sent_at = now } ∷ [] })
    else (err (other "notification_logs: constraint violated"), d)

-- `NotificationRepo.LogNotification`
unfoldable pub log_notification : NotificationLog → Action (Unit {0})
log_notification l w = query (insert_log l w.now) w

pub log_notification_lem :
    (l : NotificationLog) (w : World)
    → w.faults ≡ []
    → has_channel w.db l.channel_id ≡ true
    → known_log l ≡ true
    → log_notification l w ≡ (
      ok tt,
      record w { db = record w.db { logs = w.db.logs ++ record l { sent_at = w.now } ∷ [] } },
    )
unfolding log_notification
log_notification_lem l w calm here known =
    query_calm (insert_log l w.now) w calm ∙ rw here (rw known refl)

abbrev latest_first : NotificationLog → NotificationLog → Bool
latest_first a b = leb b.sent_at a.sent_at

-- A listed row, with COALESCE(m.name, '') of the join with monitors.
pub record ListedLog : Type 0 where
  pub log : NotificationLog
  pub monitor_name : String

abbrev name_now : Db → String → String
name_now d id = elim (find (λ m. m.id == id) d.monitors) [ none ↦ "" | some m ↦ m.name ]

abbrev pub with_monitor_name : Db → NotificationLog → ListedLog
with_monitor_name d l = record { log = l; monitor_name = name_now d l.monitor_id }

abbrev pub newest_logs : String → Db → List ListedLog
newest_logs channel d =
    map (with_monitor_name d)
      (take 100 (order_by latest_first (select (λ l. l.channel_id == channel) d.logs)))

-- `NotificationRepo.ListLogs`
unfoldable pub list_logs : String → Action (List ListedLog)
list_logs channel = fetch (λ d. ok (newest_logs channel d))

abbrev down_log : String → String → NotificationLog → Bool
down_log monitor channel l = l.monitor_id == monitor && l.channel_id == channel && l.event == "down"

-- The JOIN condition of `FindReminders`.
unfoldable pub reminds : Db → Monitor → NotificationChannel → Bool
reminds d m c =
    c.enabled
    && ltb 0 c.remind_interval_min
    && (any (assigned m.id c.id) d.assignments
        || (c.is_global && not (any (λ a. a.monitor_id == m.id) d.assignments)))

-- Its WHERE condition: the monitor is down, and the last log of it to the channel is too old or not
-- there.
unfoldable pub is_due : Time → Db → Monitor → NotificationChannel → Bool
is_due now d m c =
    let rows = select (down_log m.id c.id) d.logs in
    m.last_status == "down"
    && (not (any (down_log m.id c.id) d.logs)
        || ltb (latest rows + c.remind_interval_min * minute) now)

targets_of : Time → Db → Monitor → List NotificationChannel → List ReminderTarget
targets_of now d m [] = []
targets_of now d m (c ∷ cs) =
    let rest = targets_of now d m cs in
    if reminds d m c && is_due now d m c
    then record { monitor_id = m.id; channel_id = c.id } ∷ rest
    else rest

targets : Time → Db → List Monitor → List ReminderTarget
targets now d [] = []
targets now d (m ∷ ms) = targets_of now d m d.channels ++ targets now d ms

-- `NotificationRepo.FindReminders`
unfoldable pub find_reminders : Action (List ReminderTarget)
unfolding targets targets_of reminds is_due
find_reminders w = fetch (λ d. ok (targets w.now d d.monitors)) w

-- `NotificationRepo.HasRecentSSLLog`
unfoldable pub has_recent_ssl_log : String → Time → Action Bool
has_recent_ssl_log monitor within w =
    fetch
      (λ d. ok (
        ltb 0 (
          length (
            select
              (λ l.
                l.monitor_id == monitor
                && l.event == "ssl_expiry"
                && ltb (w.now - within) l.sent_at)
              d.logs))))
      w
