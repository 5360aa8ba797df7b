-- ===== src/Domain/Notifying.antt =====
-- internal/domain/notification.go and settings.go. A `map[string]string` is an association list.
use hivepulse.Prelude.{ℕ, String, Bool, ℤ, Option, none, List}
use hivepulse.Domain.Monitoring.{Time}

abbrev pub channel_email : String
channel_email = "email"

abbrev pub channel_webhook : String
channel_webhook = "webhook"

abbrev pub channel_slack : String
channel_slack = "slack"

abbrev pub ConfigMap : Type 0
ConfigMap = List (String × String)

pub record NotificationChannel : Type 0 where
  pub id : String
  pub name : String
  pub kind : String
  pub config : ConfigMap
  pub is_global : Bool
  pub enabled : Bool
  pub remind_interval_min : ℕ
  pub created_at : Time
  pub updated_at : Time

abbrev pub event_down : String
event_down = "down"

abbrev pub event_up : String
event_up = "up"

abbrev pub event_ssl_expiry : String
event_ssl_expiry = "ssl_expiry"

pub record NotificationLog : Type 0 where
  pub channel_id : String
  pub monitor_id : String
  pub event : String
  pub status : String
  pub error_msg : String
  pub sent_at : Time

pub record ReminderTarget : Type 0 where
  pub monitor_id : String
  pub channel_id : String

-- `start` and `finish` are the texts of `Start` and `End`, as code points.
pub record ScheduleRule : Type 0 where
  pub days : List String
  pub start : List ℕ
  pub finish : List ℕ

pub record AssignmentTriggers : Type 0 where
  pub cooldown_minutes : ℤ
  pub schedule : Option ScheduleRule

pub record MonitorChannelAssignment : Type 0 where
  pub channel : NotificationChannel
  pub triggers : AssignmentTriggers

-- `AssignmentTriggers{}`
abbrev pub no_triggers : AssignmentTriggers
no_triggers = record { cooldown_minutes = ℤ.pos 0; schedule = none }

pub record GeneralSettings : Type 0 where
  pub timezone : String

-- `smtpConfig` of internal/adapter/handler/settings_handler.go.
pub record SmtpConfig : Type 0 where
  pub host : String
  pub port : ℤ
  pub user : String
  pub password : String
  pub from : String
