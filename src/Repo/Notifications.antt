-- ===== src/Repo/Notifications.antt =====
-- internal/adapter/repo/notification_repo.go: the tables notification_channels,
-- monitor_notification_channels and notification_logs. The columns config and triggers hold the JSON
-- of their values, which is left out: a row holds the value.
use hivepulse.Prelude.{
  String, ◌==◌, Bool, not, ◌&&◌, ◌||◌, none, some, List, [], ◌∷◌, ◌++◌, any, select, find, update,
  order_by, leb, put, if◌then◌else◌,
}
use hivepulse.Domain.{
  Result, ok, err, not_found, other, Time, NotificationChannel, ConfigMap, NotificationLog,
  AssignmentTriggers, no_triggers, MonitorChannelAssignment,
}
use hivepulse.World.{Assignment, Db, Action, query, insert_row, fetch, execute}
use hivepulse.Repo.Monitors.{has_monitor, found_or}

-- The CHECK on `type`.
abbrev known_kind : String → Bool
known_kind t = t == "email" || t == "webhook" || t == "slack"

abbrev pub has_channel : Db → String → Bool
has_channel d id = any (λ c. c.id == id) d.channels

-- `NotificationRepo.CreateChannel`; it returns the row, whose id and times are copied back.
unfoldable pub create_channel : NotificationChannel → Action NotificationChannel
create_channel ch w =
    insert_row
      (λ id d.
        let row : NotificationChannel = record ch {
          id = id;
          created_at = w.now;
          updated_at = w.now;
        } in
        if known_kind ch.kind
        then (ok row, record d { channels = d.channels ++ row ∷ [] })
        else (err (other "notification_channels: constraint violated"), d))
      w

-- PostgreSQL's `config || new`: the keys of the right side win.
unfoldable pub merge : ConfigMap → ConfigMap → ConfigMap
merge old [] = old
merge old ((k, v) ∷ new) = put k v (merge old new)

-- The columns that `UpdateChannel` sets.
unfoldable pub updated_channel :
    Time → NotificationChannel → NotificationChannel → NotificationChannel
updated_channel now ch row = record row {
  name = ch.name;
  kind = ch.kind;
  config = merge row.config ch.config;
  is_global = ch.is_global;
  enabled = ch.enabled;
  remind_interval_min = ch.remind_interval_min;
  updated_at = now;
}

-- `NotificationRepo.UpdateChannel`
unfoldable pub update_channel : NotificationChannel → Action (Unit {0})
unfolding updated_channel
update_channel ch w =
    query
      (λ d.
        if not (has_channel d ch.id)
        then (err not_found, d)
        else if known_kind ch.kind
        then (
          ok tt,
          record d { channels = update (λ c. c.id == ch.id) (updated_channel w.now ch) d.channels },
        )
        else (err (other "notification_channels: constraint violated"), d))
      w

-- The rows that refer to a channel go with it.
unfoldable pub without_channel : String → Db → Db
without_channel id d = record d {
  channels = select (λ c. not (c.id == id)) d.channels;
  assignments = select (λ a. not (a.channel_id == id)) d.assignments;
  logs = select (λ l. not (l.channel_id == id)) d.logs;
}

-- `NotificationRepo.DeleteChannel`
unfoldable pub delete_channel : String → Action (Unit {0})
unfolding without_channel
delete_channel id =
    query (λ d. if has_channel d id then (ok tt, without_channel id d) else (err not_found, d))

abbrev oldest_first : NotificationChannel → NotificationChannel → Bool
oldest_first a b = leb a.created_at b.created_at

-- `NotificationRepo.ListChannels`
unfoldable pub list_channels : Action (List NotificationChannel)
list_channels = fetch (λ d. ok (order_by oldest_first d.channels))

-- `NotificationRepo.GetChannel`
unfoldable pub get_channel : String → Action NotificationChannel
get_channel id = fetch (λ d. found_or (find (λ c. c.id == id) d.channels))

abbrev pub assigned : String → String → Assignment → Bool
assigned monitor channel a = a.monitor_id == monitor && a.channel_id == channel

-- The join of the channels with the assignments of a monitor: one row for each assignment whose
-- channel is enabled.
unfoldable pub join_channels :
    String → List NotificationChannel → List Assignment → List MonitorChannelAssignment
join_channels id channels [] = []
join_channels id channels (a ∷ rest) =
    let more = join_channels id channels rest in
    if a.monitor_id == id
    then (elim (find (λ c. c.id == a.channel_id) channels) [
      | none ↦ more
      | some c ↦ if c.enabled then record { channel = c; triggers = a.triggers } ∷ more else more
    ])
    else more

abbrev pub untriggered : NotificationChannel → MonitorChannelAssignment
untriggered c = record { channel = c; triggers = no_triggers }

abbrev pub map_untriggered : List NotificationChannel → List MonitorChannelAssignment
map_untriggered [] = []
map_untriggered (c ∷ cs) = untriggered c ∷ map_untriggered cs

-- The fallback: the enabled global channels, if the monitor has no assignment at all.
unfoldable pub global_channels : String → Db → List MonitorChannelAssignment
global_channels id d =
    if any (λ a. a.monitor_id == id) d.assignments
    then []
    else map_untriggered (select (λ c. c.is_global && c.enabled) d.channels)

abbrev pub or_global :
    String → Result (List MonitorChannelAssignment) → Action (List MonitorChannelAssignment)
or_global id (err e) w = (err e, w)
or_global id (ok []) w = fetch (λ d. ok (global_channels id d)) w
or_global id (ok (a ∷ rest)) w = (ok (a ∷ rest), w)

-- `NotificationRepo.GetChannelsForMonitor`
unfoldable pub get_channels_for_monitor : String → Action (List MonitorChannelAssignment)
unfolding join_channels global_channels
get_channels_for_monitor id w =
    let (rows, w1) = fetch (λ d. ok (join_channels id d.channels d.assignments)) w in
    or_global id rows w1

-- `NotificationRepo.UpdateAssignmentTriggers`
unfoldable pub update_assignment_triggers : String → String → AssignmentTriggers → Action (Unit {0})
update_assignment_triggers monitor channel t = query (λ d.
    if any (assigned monitor channel) d.assignments
    then (
      ok tt,
      record d {
        assignments =
            update (assigned monitor channel) (λ a. record a { triggers = t }) d.assignments;
      },
    )
    else (err not_found, d))

abbrev pub sent_to : String → String → NotificationLog → Bool
sent_to monitor channel l = l.monitor_id == monitor && l.channel_id == channel && l.status == "sent"

-- The latest of some times; 0, the zero time, if there are none.
abbrev pub latest : List NotificationLog → Time
latest [] = 0
latest (l ∷ ls) = let rest = latest ls in if leb rest l.sent_at then l.sent_at else rest

-- `NotificationRepo.LastSentAt`: no row leaves the zero time.
unfoldable pub last_sent_at : String → String → Action Time
last_sent_at monitor channel = fetch (λ d. ok (latest (select (sent_to monitor channel) d.logs)))

-- `NotificationRepo.AssignChannel`
unfoldable pub assign_channel : String → String → Action (Unit {0})
assign_channel monitor channel = query (λ d.
    if any (assigned monitor channel) d.assignments
    then (ok tt, d)
    else if has_monitor d monitor && has_channel d channel
    then (
      ok tt,
      record d {
        assignments =
            d.assignments
            ++ record { monitor_id = monitor; channel_id = channel; triggers = no_triggers } ∷ [];
      },
    )
    else (err (other "monitor_notification_channels: constraint violated"), d))

-- `NotificationRepo.UnassignChannel`
unfoldable pub unassign_channel : String → String → Action (Unit {0})
unassign_channel monitor channel =
    execute
      (λ d. record d { assignments = select (λ a. not (assigned monitor channel a)) d.assignments })
