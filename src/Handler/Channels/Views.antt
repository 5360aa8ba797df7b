-- ===== src/Handler/Channels/Views.antt =====
-- The rest of internal/adapter/handler/notification_handler.go: logs, the channels of a monitor, and test
-- messages. A log's serial number is left out, and times are not formatted.
use hivepulse.Prelude.{ℕ, String, false, Option, List, map, ℤ}
use hivepulse.Domain.{Time, AssignmentTriggers, MonitorChannelAssignment, Monitor}
use hivepulse.World.{State}
use hivepulse.Repo.Notifications
use hivepulse.Repo.Logs.{ListedLog}
use hivepulse.Usecase.Notification
use hivepulse.Usecase.Notification.{Services}
use hivepulse.Handler.Replies.{status_of, reply, always}

pub record LogResponse : Type 0 where
  pub channel_id : String
  pub monitor_id : String
  pub monitor_name : String
  pub event : String
  pub status : String
  pub error_msg : String
  pub sent_at : Time

abbrev log_response : ListedLog → LogResponse
log_response l = record {
  channel_id = l.log.channel_id;
  monitor_id = l.log.monitor_id;
  monitor_name = l.monitor_name;
  event = l.log.event;
  status = l.log.status;
  error_msg = l.log.error_msg;
  sent_at = l.log.sent_at;
}

-- `NotificationHandler.Logs`
unfoldable pub logs : String → State (ℕ × Option (List LogResponse))
logs channel w =
    let (r, w1) = Notification.list_logs channel w in
    (reply (always 500) 200 (map log_response) r, w1)

pub record AssignmentResponse : Type 0 where
  pub id : String
  pub name : String
  pub kind : String
  pub triggers : AssignmentTriggers

abbrev assignment_response : MonitorChannelAssignment → AssignmentResponse
assignment_response a = record {
  id = a.channel.id;
  name = a.channel.name;
  kind = a.channel.kind;
  triggers = a.triggers;
}

-- `NotificationHandler.ListMonitorChannels`
unfoldable pub list_monitor_channels : String → State (ℕ × Option (List AssignmentResponse))
list_monitor_channels id w =
    let (r, w1) = Notifications.get_channels_for_monitor id w in
    (reply (always 500) 200 (map assignment_response) r, w1)

-- The monitor of a test message.
abbrev pub test_monitor : Monitor
test_monitor = record {
  id = "test";
  user_id = "";
  name = "Test Monitor (HivePulse Test)";
  check_type = "";
  interval = ℤ.pos 0;
  timeout = ℤ.pos 0;
  retries = ℤ.pos 0;
  retry_interval = ℤ.pos 0;
  enabled = false;
  url = "https://example.com";
  method = "";
  expected_status = ℤ.pos 0;
  request_headers = "";
  request_body = "";
  follow_redirects = false;
  skip_tls_verify = false;
  expected_keyword = "";
  host = "";
  port = ℤ.pos 0;
  ping_host = "";
  packet_count = ℤ.pos 0;
  dns_host = "";
  record_type = "";
  expected_value = "";
  dns_server = "";
  created_at = 0;
  updated_at = 0;
  last_status = "";
}

-- `NotificationHandler.TestChannel`
unfoldable pub test_channel : Services → String → State ℕ
test_channel sv channel w =
    let (r, w1) = Notification.send_test sv channel test_monitor w in
    (status_of (always 400) 200 r, w1)
