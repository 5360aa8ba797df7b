-- ===== src/Usecase/Notification.antt =====
-- internal/usecase/notification_usecase.go: who is told of an event, and when.
pub mod Cooldown
pub mod Sending
pub mod Everyone
use hivepulse.Prelude.{
  ℕ, zero, suc, ◌+◌, ◌-◌, ◌*◌, ◌%◌, ◌^◌, String, ◌==◌, Bool, true, false, not, ◌&&◌, ◌||◌, Option,
  none, some, List, [], ◌∷◌, ◌++◌, ltb, leb, eqb, signed_64, ltb_ℤ, ℤ, to_nat, if◌then◌else◌,
}
use hivepulse.Domain.{
  Error, Result, ok, err, Time, minute, Monitor, NotificationChannel, NotificationLog,
  ReminderTarget, AssignmentTriggers, ScheduleRule, MonitorChannelAssignment, event_down,
}
use hivepulse.World.{World, Delivery, Action, fetch}
use hivepulse.Repo.Monitors
use hivepulse.Repo.Notifications
use hivepulse.Repo.Logs
use hivepulse.Repo.Logs.{ListedLog}
use hivepulse.Usecase.Schedule.{LocalTime, is_within_schedule}

-- What the usecase is given: the sender, whose attempts fail with a message or not, the zones that
-- `time.LoadLocation` knows, and the stored timezone.
pub record Services : Type 0 where
  pub send : ℕ → NotificationChannel → String → Monitor → Option String
  pub load_location : String → Option (Time → LocalTime)
  pub timezone : Option String

abbrev pub delivery : NotificationChannel → String → Monitor → Option String → Delivery
delivery ch event m failure = record {
  channel_id = ch.id;
  monitor_id = m.id;
  event = event;
  done = elim failure [ none ↦ true | some e ↦ false ];
}

abbrev pub record_send : NotificationChannel → String → Monitor → Option String → World → World
record_send ch event m failure w = record w {
  outbox = w.outbox ++ delivery ch event m failure ∷ [];
}

-- `time.Since(last)`, which stops at the ends of 64 bits.
abbrev pub since : Time → Time → ℤ
since now last =
    if leb last now
    then ℤ.pos (if ltb (now - last) (2 ^ 63) then now - last else 2 ^ 63 - 1)
    else ℤ.negsuc (if leb (last - now) (2 ^ 63) then last - now - 1 else 2 ^ 63 - 1)

-- `time.Duration(CooldownMinutes)*time.Minute`, which wraps around.
abbrev pub cooldown : AssignmentTriggers → ℤ
cooldown t = signed_64 (to_nat t.cooldown_minutes * minute % 2 ^ 64)

-- The time that `LastSentAt` gave is too recent; the cooldown is positive here.
abbrev pub too_recent : Time → AssignmentTriggers → Result Time → Bool
too_recent now t (err e) = false
too_recent now t (ok last) = not (eqb last 0) && ltb_ℤ (since now last) (cooldown t)

-- The cooldown check: whether to stop, and the world after the query.
unfoldable pub cooling : String → NotificationChannel → AssignmentTriggers → World → Bool × World
cooling id ch t w =
    if ltb_ℤ (ℤ.pos 0) t.cooldown_minutes
    then (let (last, w1) = Notifications.last_sent_at id ch.id w in (too_recent w.now t last, w1))
    else (false, w)

abbrev told_apart : Result Bool → Bool
told_apart (err e) = false
told_apart (ok within) = not within

abbrev outside_in : Option (Time → LocalTime) → Time → ScheduleRule → Bool
outside_in none now s = false
outside_in (some local) now s = told_apart (is_within_schedule (local now) s)

abbrev outside_zone : Services → Option String → Time → ScheduleRule → Bool
outside_zone sv none now s = false
outside_zone sv (some zone) now s = outside_in (sv.load_location zone) now s

-- The schedule check: whether to stop. Settings that cannot be read, an unknown zone and malformed
-- times skip it.
unfoldable pub off_schedule : Services → Time → Option ScheduleRule → Bool
off_schedule sv now none = false
off_schedule sv now (some s) = outside_zone sv sv.timezone now s

-- `for attempt := 0; attempt < 3; attempt++`, with the attempts that are left: the last error.
unfoldable pub send_from :
    Services
    → NotificationChannel
    → String
    → Monitor
    → ℕ
    → ℕ
    → Option String
    → World
    → Option String × World
send_from sv ch event m attempt zero last w = (last, w)
send_from sv ch event m attempt (suc left) last w =
    let failure : Option String = sv.send attempt ch event m in
    let w1 : World = record_send ch event m failure w in
    let rest = send_from sv ch event m (attempt + 1) left failure w1 in
    elim failure [ none ↦ (none, w1) | some e ↦ rest ]

abbrev pub log_of : String → NotificationChannel → String → Option String → NotificationLog
log_of id ch event none = record {
  channel_id = ch.id;
  monitor_id = id;
  event = event;
  status = "sent";
  error_msg = "";
  sent_at = 0;
}
log_of id ch event (some e) = record {
  channel_id = ch.id;
  monitor_id = id;
  event = event;
  status = "failed";
  error_msg = e;
  sent_at = 0;
}

-- Sending and logging, once the monitor is looked up.
unfoldable pub deliver :
    Services → String → NotificationChannel → String → Result Monitor → World → World
deliver sv id ch event (err e) w = w
deliver sv id ch event (ok m) w =
    let (last, w1) = send_from sv ch event m 0 3 none w in
    (Logs.log_notification (log_of id ch event last) w1).1

-- `NotificationUsecase.notifyChannel`
unfoldable pub notify_channel :
    Services → String → MonitorChannelAssignment → String → World → World
notify_channel sv id a event w =
    let (stop, w1) = cooling id a.channel a.triggers w in
    if stop || off_schedule sv w.now a.triggers.schedule
    then w1
    else (let (m, w2) = Monitors.find_by_id id w1 in deliver sv id a.channel event m w2)

unfoldable pub notify_all :
    Services → String → List MonitorChannelAssignment → String → World → World
notify_all sv id [] event w = w
notify_all sv id (a ∷ rest) event w = notify_all sv id rest event (notify_channel sv id a event w)

abbrev notify_found :
    Services → String → Result (List MonitorChannelAssignment) → String → World → World
notify_found sv id (err e) event w = w
notify_found sv id (ok l) event w = notify_all sv id l event w

-- `NotificationUsecase.Notify`
unfoldable pub notify : Services → String → String → World → World
notify sv id event w =
    let (l, w1) = Notifications.get_channels_for_monitor id w in notify_found sv id l event w1

-- The first assignment of the channel is told.
unfoldable pub remind_one :
    Services → ReminderTarget → List MonitorChannelAssignment → World → World
remind_one sv t [] w = w
remind_one sv t (a ∷ rest) w =
    let later = remind_one sv t rest w in
    if a.channel.id == t.channel_id then notify_channel sv t.monitor_id a event_down w else later

abbrev remind_found :
    Services → ReminderTarget → Result (List MonitorChannelAssignment) → World → World
remind_found sv t (err e) w = w
remind_found sv t (ok l) w = remind_one sv t l w

unfoldable pub remind_all : Services → List ReminderTarget → World → World
remind_all sv [] w = w
remind_all sv (t ∷ rest) w =
    let (l, w1) = Notifications.get_channels_for_monitor t.monitor_id w in
    remind_all sv rest (remind_found sv t l w1)

abbrev remind_targets : Services → Result (List ReminderTarget) → Action (Unit {0})
remind_targets sv (err e) w = (err e, w)
remind_targets sv (ok l) w = (ok tt, remind_all sv l w)

-- `NotificationUsecase.NotifyReminders`
unfoldable pub notify_reminders : Services → Action (Unit {0})
notify_reminders sv w = let (l, w1) = Logs.find_reminders w in remind_targets sv l w1

abbrev send_found : Services → String → Monitor → Result NotificationChannel → Action (Unit {0})
send_found sv event m (err e) w = (err e, w)
send_found sv event m (ok ch) w =
    let failure : Option String = sv.send 0 ch event m in
    (elim failure [ none ↦ ok tt | some e ↦ err (Error.other e) ], record_send ch event m failure w)

-- `NotificationUsecase.SendTest`
unfoldable pub send_test : Services → String → Monitor → Action (Unit {0})
send_test sv channel m w =
    let (ch, w1) = Notifications.get_channel channel w in send_found sv event_down m ch w1

-- The usecase passes on `CreateChannel`, `UpdateChannel`, `DeleteChannel`, `ListChannels`,
-- `AssignChannel`, `UnassignChannel`, `GetChannelsForMonitor`, `UpdateAssignmentTriggers` and `ListLogs`.
abbrev pub create_channel : NotificationChannel → Action NotificationChannel
create_channel = Notifications.create_channel

abbrev pub update_channel : NotificationChannel → Action (Unit {0})
update_channel = Notifications.update_channel

abbrev pub delete_channel : String → Action (Unit {0})
delete_channel = Notifications.delete_channel

abbrev pub list_channels : Action (List NotificationChannel)
list_channels = Notifications.list_channels

abbrev pub assign_channel : String → String → Action (Unit {0})
assign_channel = Notifications.assign_channel

abbrev pub unassign_channel : String → String → Action (Unit {0})
unassign_channel = Notifications.unassign_channel

abbrev pub update_assignment_triggers : String → String → AssignmentTriggers → Action (Unit {0})
update_assignment_triggers = Notifications.update_assignment_triggers

abbrev pub list_logs : String → Action (List ListedLog)
list_logs = Logs.list_logs
