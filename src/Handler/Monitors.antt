-- ===== src/Handler/Monitors.antt =====
-- internal/adapter/handler/monitor_handler.go. A response is its status and its data, a body is `none` if
-- gin cannot parse it, and a number in the query is what `strconv.Atoi` makes of it, 0 if it is none. The
-- times in a response are not formatted.
pub mod Views
pub mod Answers
pub mod Panic
use hivepulse.Prelude.{
  ℕ, zero, suc, ◌-◌, ◌*◌, String, ◌==◌, Bool, true, false, ◌||◌, Option, none, some, List, [], ◌∷◌,
  ℤ, ltb_ℤ, eqb_ℤ, to_nat, if◌then◌else◌,
}
use hivepulse.Domain.{
  Error, not_found, Result, ok, err, Time, hour, Monitor, Heartbeat, Floats, StatsResponse,
  OverviewStats,
}
use hivepulse.World.{World, State}
use hivepulse.Repo.Heartbeats
use hivepulse.Usecase.Monitor.{
  MonitorRequest, SchedulerService, create_monitor, update_monitor, delete_monitor, list_monitors,
  get_monitor,
}
use hivepulse.Usecase.Stats.{get_stats, get_overview}

pub record MonitorWriteRequest : Type 0 where
  pub name : String
  pub check_type : String
  pub interval : ℤ
  pub timeout : ℤ
  pub retries : ℤ
  pub retry_interval : ℤ
  pub enabled : Option Bool
  pub url : String
  pub method : String
  pub expected_status : ℤ
  pub request_headers : String
  pub request_body : String
  pub follow_redirects : Option Bool
  pub skip_tls_verify : Bool
  pub expected_keyword : String
  pub host : String
  pub port : ℤ
  pub ping_host : String
  pub packet_count : ℤ
  pub dns_host : String
  pub record_type : String
  pub expected_value : String
  pub dns_server : String

abbrev or_true : Option Bool → Bool
or_true none = true
or_true (some b) = b

-- `toMonitorRequest`
unfoldable pub to_monitor_request : MonitorWriteRequest → MonitorRequest
to_monitor_request req = record {
  name = req.name;
  check_type = req.check_type;
  interval = req.interval;
  timeout = req.timeout;
  retries = req.retries;
  retry_interval = req.retry_interval;
  enabled = or_true req.enabled;
  url = req.url;
  method = req.method;
  expected_status = req.expected_status;
  request_headers = req.request_headers;
  request_body = req.request_body;
  follow_redirects = or_true req.follow_redirects;
  skip_tls_verify = req.skip_tls_verify;
  expected_keyword = req.expected_keyword;
  host = req.host;
  port = req.port;
  ping_host = req.ping_host;
  packet_count = req.packet_count;
  dns_host = req.dns_host;
  record_type = req.record_type;
  expected_value = req.expected_value;
  dns_server = req.dns_server;
}

-- The fields that the binding requires.
abbrev pub bind : Option MonitorWriteRequest → Option MonitorWriteRequest
bind none = none
bind (some req) =
    if req.name == "" || req.check_type == "" || eqb_ℤ req.interval (ℤ.pos 0)
    then none
    else some req

module _ (scheduler : SchedulerService) where
  open scheduler use {Jobs}

  -- The status of a response, with the tables and the jobs.
  abbrev pub Answer : Type 0
  Answer = ℕ × World × Jobs

  abbrev pub answer : (Result (Unit {0}) → ℕ) → Result (Unit {0}) × World × Jobs → Answer
  answer status (r, w, jobs) = (status r, w, jobs)

  abbrev pub created : Result (Unit {0}) → ℕ
  created (err e) = 400
  created (ok u) = 201

  abbrev pub updated : Result (Unit {0}) → ℕ
  updated (err e) = 400
  updated (ok u) = 200

  abbrev pub deleted : Result (Unit {0}) → ℕ
  deleted (err e) = elim e [ not_found ↦ 404 | _ ↦ 500 ]
  deleted (ok u) = 204

  abbrev pub create_bound : String → Option MonitorWriteRequest → World → Jobs → Answer
  create_bound user_id none w jobs = (400, w, jobs)
  create_bound user_id (some req) w jobs =
      answer created (create_monitor scheduler user_id (to_monitor_request req) w jobs)

  -- `MonitorHandler.Create`, for the user of the token.
  unfoldable pub create : String → Option MonitorWriteRequest → World → Jobs → Answer
  create user_id body = create_bound user_id (bind body)

  abbrev pub update_bound : String → Option MonitorWriteRequest → World → Jobs → Answer
  update_bound id none w jobs = (400, w, jobs)
  update_bound id (some req) w jobs =
      answer updated (update_monitor scheduler id (to_monitor_request req) w jobs)

  -- `MonitorHandler.Update`
  unfoldable pub update_handler : String → Option MonitorWriteRequest → World → Jobs → Answer
  update_handler id body = update_bound id (bind body)

  -- `MonitorHandler.Delete`
  unfoldable pub delete : String → World → Jobs → Answer
  delete id w jobs = answer deleted (delete_monitor scheduler id w jobs)
