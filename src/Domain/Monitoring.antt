-- ===== src/Domain/Monitoring.antt =====
-- monitor.go, heartbeat.go, incident.go and maintenance_window.go of internal/domain.
use hivepulse.Prelude.{ℕ, ◌*◌, String, Bool, Option, ℤ}

-- `time.Time` as the nanoseconds since Go's zero time, so that `IsZero` is a test for 0. Every day,
-- hour and minute of UTC begins at a multiple of its length. A `time.Duration` is in nanoseconds too.
abbrev pub Time : Type 0
Time = ℕ

abbrev pub second : ℕ
second = 1_000_000_000

abbrev pub minute : ℕ
minute = 60 * second

abbrev pub hour : ℕ
hour = 60 * minute

abbrev pub day : ℕ
day = 24 * hour

abbrev pub check_http : String
check_http = "http"

abbrev pub check_tcp : String
check_tcp = "tcp"

abbrev pub check_ping : String
check_ping = "ping"

abbrev pub check_dns : String
check_dns = "dns"

pub record Monitor : Type 0 where
  pub id : String
  pub user_id : String
  pub name : String
  pub check_type : String
  pub interval : ℤ
  pub timeout : ℤ
  pub retries : ℤ
  pub retry_interval : ℤ
  pub enabled : Bool
  pub url : String
  pub method : String
  pub expected_status : ℤ
  pub request_headers : String
  pub request_body : String
  pub follow_redirects : Bool
  pub skip_tls_verify : Bool
  pub expected_keyword : String
  pub host : String
  pub port : ℤ
  pub ping_host : String
  pub packet_count : ℤ
  pub dns_host : String
  pub record_type : String
  pub expected_value : String
  pub dns_server : String
  pub created_at : Time
  pub updated_at : Time
  pub last_status : String

pub record Heartbeat : Type 0 where
  pub id : ℕ
  pub monitor_id : String
  pub status : String
  pub ping_ms : ℕ
  pub status_code : ℕ
  pub error_msg : String
  pub checked_at : Time

pub record Incident : Type 0 where
  pub id : ℕ
  pub monitor_id : String
  pub monitor_name : String
  pub started_at : Time
  pub resolved_at : Option Time
  pub error_msg : String

pub record MaintenanceWindow : Type 0 where
  pub id : String
  pub monitor_id : Option String
  pub starts_at : Time
  pub ends_at : Time
  pub reason : String
  pub created_at : Time
