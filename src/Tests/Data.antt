-- ===== src/Tests/Data.antt =====
-- A small installation: a user, a monitor that is down, its open incident, a channel and a window.
use hivepulse.Prelude.{
  ℕ, zero, suc, ◌*◌, ◌+◌, String, ◌==◌, if◌then◌else◌, true, false, none, some, List, [], ◌∷◌, ℤ,
}
use hivepulse.Domain.{
  Time, minute, hour, day, Monitor, Heartbeat, Incident, MaintenanceWindow, NotificationChannel,
  NotificationLog, User, RefreshToken,
}
use hivepulse.World.{Db, World}
use hivepulse.Usecase.Checker.{Checkers}

abbrev pub start : Time
start = 1000 * day

abbrev pub site : Monitor
site = record {
  id = "m1";
  user_id = "u1";
  name = "site";
  check_type = "http";
  interval = ℤ.pos 60;
  timeout = ℤ.pos 10;
  retries = ℤ.pos 2;
  retry_interval = ℤ.pos 5;
  enabled = true;
  url = "https://example.com";
  method = "GET";
  expected_status = ℤ.pos 0;
  request_headers = "";
  request_body = "";
  follow_redirects = true;
  skip_tls_verify = false;
  expected_keyword = "";
  host = "";
  port = ℤ.pos 0;
  ping_host = "";
  packet_count = ℤ.pos 0;
  dns_host = "";
  record_type = "";
  expected_value = "";
  dns_server = "";
  created_at = 1;
  updated_at = 1;
  last_status = "down";
}

abbrev pub outage : Incident
outage = record {
  id = 1;
  monitor_id = "m1";
  monitor_name = "site";
  started_at = start;
  resolved_at = none;
  error_msg = "timeout";
}

abbrev pub upgrade : MaintenanceWindow
upgrade = record {
  id = "w1";
  monitor_id = some "m1";
  starts_at = start;
  ends_at = start + 2 * hour;
  reason = "upgrade";
  created_at = 1;
}

abbrev pub hook : NotificationChannel
hook = record {
  id = "c1";
  name = "ops";
  kind = "webhook";
  config = ("url", "https://ops") ∷ ("secret", "s3cret") ∷ [];
  is_global = true;
  enabled = true;
  remind_interval_min = 5;
  created_at = 1;
  updated_at = 1;
}

abbrev pub told : NotificationLog
told = record {
  channel_id = "c1";
  monitor_id = "m1";
  event = "down";
  status = "sent";
  error_msg = "";
  sent_at = start;
}

abbrev pub owner : User
owner = record {
  id = "u1";
  email = "a@b.c";
  name = "Ada";
  password_hash = "#pw";
  role = "admin";
  created_at = 1;
  updated_at = 1;
}

abbrev pub session : RefreshToken
session = record {
  id = "t1";
  user_id = "u1";
  token_hash = "#old";
  device_fp = "fp";
  ip = "::1";
  expires_at = start + day;
  created_at = 1;
}

abbrev pub tables : List MaintenanceWindow → Db
tables windows = record {
  monitors = site ∷ [];
  heartbeats = [];
  incidents = outage ∷ [];
  windows = windows;
  channels = hook ∷ [];
  assignments = [];
  logs = told ∷ [];
  users = owner ∷ [];
  tokens = session ∷ [];
  tags = [];
  monitor_tags = [];
  pages = [];
  page_tags = [];
  timezone = none;
  smtp = none;
  hourly = [];
  minutely = [];
  daily = [];
}

abbrev pub world_of : Db → World
world_of d = record {
  db = d;
  now = start + minute;
  fresh = "n1" ∷ "n2" ∷ [];
  faults = [];
  spawned = [];
  events = [];
  outbox = [];
}

abbrev pub world : World
world = world_of (tables [])

abbrev pub in_window : World
in_window = world_of (tables (upgrade ∷ []))

abbrev pub empty_world : World
empty_world =
    world_of (record (tables []) { users = []; tokens = []; monitors = []; incidents = [] })

abbrev pub beat : String → Time → Heartbeat
beat status t = record {
  id = 0;
  monitor_id = "m1";
  status = status;
  ping_ms = 12;
  status_code = 200;
  error_msg = "";
  checked_at = t;
}

-- The first attempt fails, the others do not.
abbrev pub flaky : ℕ → Monitor → Heartbeat
flaky zero m = beat "down" start
flaky (suc i) m = beat "up" start

-- Only HTTP monitors have a checker.
abbrev pub only_http : (ℕ → Monitor → Heartbeat) → Checkers
only_http check kind = if kind == "http" then some check else none
