-- ===== src/Tests/Alerts.antt =====
-- Notifications, their cooldown and their schedule.
use hivepulse.Prelude.{
  ℕ, zero, suc, ◌+◌, ◌*◌, ◌≤◌, ◌<◌, String, ◌==◌, ◌≡◌, ◌↔◌, refl, true, Option, none, some, [], ◌∷◌,
  ◌++◌, any, ℤ, arith,
}
use hivepulse.Domain.{ok, Monitor, NotificationChannel, MonitorChannelAssignment, ScheduleRule}
use hivepulse.Usecase.Notification.{Services, deliver, notify_channel}
use hivepulse.Usecase.Notification.Sending.{verdict, tries, deliveries, row_of, deliver_lem}
use hivepulse.Usecase.Notification.Cooldown.{cooldown_holds}
use hivepulse.Usecase.Schedule.{LocalTime, format_clock, day_name, is_within_schedule}
use hivepulse.Usecase.Schedule.Clock.{parse_clock-format_clock, is_within_schedule_iff}
use hivepulse.Tests.Data.{start, site, hook, world}

-- The first attempt fails.
abbrev busy_once : ℕ → NotificationChannel → String → Monitor → Option String
busy_once zero ch event m = some "busy"
busy_once (suc n) ch event m = none

abbrev services : Services
services = record { send = busy_once; load_location = λ zone. none; timezone = none }

deliver_example : deliver services "m1" hook "up" (ok site) world ≡ record world {
  db = record world.db {
    logs = world.db.logs ++ row_of "m1" hook "up" world.now (verdict (some "busy") none none) ∷ [];
  };
  outbox = world.outbox ++ deliveries services hook "up" site 0 (tries (some "busy") none);
}
deliver_example = deliver_lem services "m1" hook "up" site world refl refl refl

abbrev quarter : MonitorChannelAssignment
quarter = record {
  channel = hook;
  triggers = record { cooldown_minutes = ℤ.pos 15; schedule = none };
}

cooldown_holds_example : notify_channel services "m1" quarter "up" world ≡ world
cooldown_holds_example =
    cooldown_holds services "m1" quarter "up" world start 15 refl refl (omega arith) (omega arith)
      (omega arith) refl (omega arith)

abbrev office : ScheduleRule
office = record { days = "mon" ∷ "tue" ∷ []; start = format_clock 9 0; finish = format_clock 17 30 }

abbrev monday : LocalTime
monday = record { weekday = 1; hours = 23; minutes = 15 }

is_within_schedule_iff_example : (is_within_schedule monday office ≡ ok true) ↔ (
    (any (λ d. d == day_name 1) office.days ≡ true) × (540 ≤ 23 * 60 + 15) × (23 * 60 + 15 < 1050))
is_within_schedule_iff_example =
    is_within_schedule_iff monday office 540 1050 (omega arith) (omega arith)
      (parse_clock-format_clock 9 0 (omega arith) (omega arith))
      (parse_clock-format_clock 17 30 (omega arith) (omega arith))
