-- ===== src/Usecase/Monitor.antt =====
-- internal/usecase/monitor_usecase.go: the requests on monitors.
pub mod Valid
use Prim.Native.String.{count}
use hivepulse.Prelude.{
  ℕ, String, ◌==◌, Bool, true, false, not, ◌&&◌, ◌||◌, List, [], ◌∷◌, any, ltb, ℤ, ltb_ℤ, eqb_ℤ,
  to_nat, trim_space, if◌then◌else◌,
}
use hivepulse.Domain.{
  Error, Result, ok, err, not_found, validation, Monitor, Tag, check_http, check_tcp, check_ping,
  check_dns,
}
use hivepulse.World.{World, Action, ◌>>=◌, ◌>>◌}
use hivepulse.Repo.Monitors

pub record MonitorRequest : Type 0 where
  pub name : String
  pub check_type : String
  pub interval : ℤ
  pub timeout : ℤ
  pub retries : ℤ
  pub retry_interval : ℤ
  pub enabled : Bool
  pub url : String
  pub method : String
  pub expected_status : ℤ
  pub request_headers : String
  pub request_body : String
  pub follow_redirects : Bool
  pub skip_tls_verify : Bool
  pub expected_keyword : String
  pub host : String
  pub port : ℤ
  pub ping_host : String
  pub packet_count : ℤ
  pub dns_host : String
  pub record_type : String
  pub expected_value : String
  pub dns_server : String

abbrev pub valid_intervals : List ℕ
valid_intervals = 10 ∷ 30 ∷ 60 ∷ 120 ∷ 300 ∷ 600 ∷ 1800 ∷ 3600 ∷ []

abbrev pub is_valid_interval : ℤ → Bool
is_valid_interval i = any (λ n. eqb_ℤ i (ℤ.pos n)) valid_intervals

abbrev invalid : String → Result (Unit {0})
invalid message = err (validation message)

-- The `switch` on the type of the check.
unfoldable pub validate_target : MonitorRequest → Result (Unit {0})
validate_target req =
    if req.check_type == check_http
    then (if req.url == "" then invalid "url required for http check" else ok tt)
    else if req.check_type == check_tcp
    then (if req.host == "" || ltb_ℤ req.port (ℤ.pos 1) || ltb_ℤ (ℤ.pos 65535) req.port
        then invalid "host and valid port required for tcp check"
        else ok tt)
    else if req.check_type == check_ping
    then (if req.ping_host == "" then invalid "ping_host required for ping check" else ok tt)
    else if req.check_type == check_dns
    then (if req.dns_host == "" || req.record_type == ""
        then invalid "dns_host and record_type required for dns check"
        else ok tt)
    else invalid "check_type must be http, tcp, ping, or dns"

-- `MonitorUsecase.validate`
unfoldable pub validate : MonitorRequest → Result (Unit {0})
unfolding validate_target
validate req =
    if trim_space req.name == "" || ltb 100 (count req.name)
    then invalid "name required, max 100 chars"
    else if not (is_valid_interval req.interval)
    then invalid "interval must be one of 10,30,60,120,300,600,1800,3600"
    else validate_target req

-- The default of a field that is left at 0.
abbrev or_default : ℤ → ℕ → ℤ
or_default i n = if eqb_ℤ i (ℤ.pos 0) then ℤ.pos n else i

-- `reqToMonitor`; the id, the times and the last status are Go's zero values.
unfoldable pub req_to_monitor : String → MonitorRequest → Monitor
req_to_monitor user_id req = record {
  id = "";
  user_id = user_id;
  name = req.name;
  check_type = req.check_type;
  interval = req.interval;
  timeout = or_default req.timeout 30;
  retries = req.retries;
  retry_interval = or_default req.retry_interval 20;
  enabled = req.enabled;
  url = req.url;
  method = if req.method == "" then "GET" else req.method;
  expected_status = or_default req.expected_status 200;
  request_headers = req.request_headers;
  request_body = req.request_body;
  follow_redirects = req.follow_redirects;
  skip_tls_verify = req.skip_tls_verify;
  expected_keyword = req.expected_keyword;
  host = req.host;
  port = req.port;
  ping_host = req.ping_host;
  packet_count = or_default req.packet_count 3;
  dns_host = req.dns_host;
  record_type = req.record_type;
  expected_value = req.expected_value;
  dns_server = req.dns_server;
  created_at = 0;
  updated_at = 0;
  last_status = "";
}

-- internal/port/service.go, SchedulerService: what the requests ask of a scheduler.
pub record SchedulerService : Type 1 where
  pub Jobs : Type 0
  pub add : Monitor → Jobs → Jobs
  pub remove : String → Jobs → Jobs
  pub update : Monitor → Jobs → Jobs

module _ (scheduler : SchedulerService) where
  open scheduler use {Jobs, add, remove, update}

  -- What a request returns, with the tables and the jobs that it leaves.
  abbrev pub Outcome : Type 0
  Outcome = Result (Unit {0}) × World × Jobs

  abbrev created : Monitor → Result String → World → Jobs → Outcome
  created m (err e) w jobs = (err e, w, jobs)
  created m (ok id) w jobs = (ok tt, w, if m.enabled then add (record m { id = id }) jobs else jobs)

  abbrev try_create : Result (Unit {0}) → Monitor → World → Jobs → Outcome
  try_create (err e) m w jobs = (err e, w, jobs)
  try_create (ok u) m w jobs = let (r, w1) = Monitors.create m w in created m r w1 jobs

  -- `MonitorUsecase.CreateMonitor`
  unfoldable pub create_monitor : String → MonitorRequest → World → Jobs → Outcome
  create_monitor user_id req w jobs = try_create (validate req) (req_to_monitor user_id req) w jobs

  abbrev updated : Monitor → Result (Unit {0}) → World → Jobs → Outcome
  updated m (err e) w jobs = (err e, w, jobs)
  updated m (ok u) w jobs = (ok tt, w, update m jobs)

  abbrev try_update : Result (Unit {0}) → Monitor → World → Jobs → Outcome
  try_update (err e) m w jobs = (err e, w, jobs)
  try_update (ok u) m w jobs = let (r, w1) = Monitors.update_monitor m w in updated m r w1 jobs

  -- `MonitorUsecase.UpdateMonitor`
  unfoldable pub update_monitor : String → MonitorRequest → World → Jobs → Outcome
  update_monitor id req w jobs =
      try_update (validate req) (record (req_to_monitor "" req) { id = id }) w jobs

  -- `MonitorUsecase.DeleteMonitor`: the job goes first, whatever becomes of the row.
  unfoldable pub delete_monitor : String → World → Jobs → Outcome
  delete_monitor id w jobs = let (r, w1) = Monitors.delete id w in (r, w1, remove id jobs)

-- The page and the limit that a listing asks for.
unfoldable pub clamp_page : ℤ → ℕ
clamp_page page = if ltb_ℤ page (ℤ.pos 1) then 1 else to_nat page

unfoldable pub clamp_limit : ℤ → ℕ
clamp_limit limit = if ltb_ℤ limit (ℤ.pos 1) || ltb_ℤ (ℤ.pos 100) limit then 20 else to_nat limit

-- `MonitorUsecase.ListMonitors`
unfoldable pub list_monitors : ℤ → ℤ → Action (List Monitor × ℕ)
unfolding clamp_page clamp_limit
list_monitors page limit = Monitors.find_all (clamp_page page) (clamp_limit limit)

-- `MonitorUsecase.GetMonitor`
unfoldable pub get_monitor : String → Action Monitor
get_monitor = Monitors.find_by_id

abbrev assign_found : String → String → Result Monitor → Action (Unit {0})
assign_found id tag (err e) w = (err not_found, w)
assign_found id tag (ok m) w = Monitors.assign_tag id tag w

-- `MonitorUsecase.AssignTag`
unfoldable pub assign_tag : String → String → Action (Unit {0})
assign_tag id tag w = let (found, w1) = Monitors.find_by_id id w in assign_found id tag found w1

-- `MonitorUsecase.UnassignTag`
unfoldable pub unassign_tag : String → String → Action (Unit {0})
unassign_tag = Monitors.unassign_tag

-- `MonitorUsecase.GetTags`
unfoldable pub get_tags : String → Action (List Tag)
get_tags = Monitors.find_tags_by_monitor
