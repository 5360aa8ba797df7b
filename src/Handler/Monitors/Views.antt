-- ===== src/Handler/Monitors/Views.antt =====
-- What internal/adapter/handler/monitor_handler.go shows of monitors.
use hivepulse.Prelude.{
  ℕ, zero, suc, ◌-◌, ◌*◌, String, Bool, ◌||◌, Option, none, some, List, [], ◌∷◌, ℤ, ltb_ℤ, to_nat,
  if◌then◌else◌,
}
use hivepulse.Domain.{
  not_found, Result, ok, err, Time, hour, Monitor, Heartbeat, Floats, StatsResponse, OverviewStats,
}
use hivepulse.World.{State}
use hivepulse.Repo.Heartbeats
use hivepulse.Usecase.Monitor.{list_monitors, get_monitor}
use hivepulse.Usecase.Stats.{get_stats, get_overview}

-- The limit of `Heartbeats`, 48 without one.
unfoldable pub beat_limit : Option ℤ → ℕ
beat_limit none = 48
beat_limit (some limit) =
    if ltb_ℤ limit (ℤ.pos 1) || ltb_ℤ (ℤ.pos 200) limit then 48 else to_nat limit

pub record BeatResponse : Type 0 where
  pub status : String
  pub ping_ms : ℕ
  pub checked_at : Time
  pub error_msg : String

abbrev beat_responses : List Heartbeat → List BeatResponse
beat_responses [] = []
beat_responses (h ∷ hs) =
    record {
      status = h.status;
      ping_ms = h.ping_ms;
      checked_at = h.checked_at;
      error_msg = h.error_msg;
    }
    ∷ beat_responses hs

abbrev pub beats_answer : Result (List Heartbeat) → ℕ × List BeatResponse
beats_answer (err e) = (500, [])
beats_answer (ok hs) = (200, beat_responses hs)

-- `MonitorHandler.Heartbeats`
unfoldable pub heartbeats : String → Option ℤ → State (ℕ × List BeatResponse)
heartbeats id limit w =
    let (r, w1) = Heartbeats.find_latest id (beat_limit limit) w in (beats_answer r, w1)

abbrev overview_answer : Result OverviewStats → ℕ × Option OverviewStats
overview_answer (err e) = (500, none)
overview_answer (ok stats) = (200, some stats)

-- `MonitorHandler.Overview`
unfoldable pub overview : State (ℕ × Option OverviewStats)
overview w = let (r, w1) = get_overview w in (overview_answer r, w1)

module _ (floats : Floats) where
  open floats use {Float, nought, ratio}

  pub record MonitorResponse : Type 0 where
    pub id : String
    pub name : String
    pub check_type : String
    pub interval : ℤ
    pub timeout : ℤ
    pub retries : ℤ
    pub retry_interval : ℤ
    pub enabled : Bool
    pub url : String
    pub method : String
    pub expected_status : ℤ
    pub follow_redirects : Bool
    pub skip_tls_verify : Bool
    pub expected_keyword : String
    pub host : String
    pub port : ℤ
    pub ping_host : String
    pub packet_count : ℤ
    pub dns_host : String
    pub record_type : String
    pub dns_server : String
    pub last_status : String
    pub uptime_24h : Float
    pub created_at : Time

  -- `toMonitorResponse`
  unfoldable pub to_monitor_response : Monitor → Float → MonitorResponse
  to_monitor_response m uptime = record {
    id = m.id;
    name = m.name;
    check_type = m.check_type;
    interval = m.interval;
    timeout = m.timeout;
    retries = m.retries;
    retry_interval = m.retry_interval;
    enabled = m.enabled;
    url = m.url;
    method = m.method;
    expected_status = m.expected_status;
    follow_redirects = m.follow_redirects;
    skip_tls_verify = m.skip_tls_verify;
    expected_keyword = m.expected_keyword;
    host = m.host;
    port = m.port;
    ping_host = m.ping_host;
    packet_count = m.packet_count;
    dns_host = m.dns_host;
    record_type = m.record_type;
    dns_server = m.dns_server;
    last_status = m.last_status;
    uptime_24h = uptime;
    created_at = m.created_at;
  }

  -- `resolveStats`; the counts of an error are 0.
  abbrev resolve_stats : Result (ℕ × ℕ) → Float
  resolve_stats (err e) = nought
  resolve_stats (ok (up, zero)) = nought
  resolve_stats (ok (up, suc n)) = ratio up (suc n)

  unfoldable pub view : Monitor → State MonitorResponse
  unfolding to_monitor_response
  view m w =
      let (up, w1) = Heartbeats.get_uptime m.id (w.now - 24 * hour) w in
      (to_monitor_response m (resolve_stats up), w1)

  abbrev pub views : List Monitor → State (List MonitorResponse)
  views [] w = ([], w)
  views (m ∷ ms) w = let (v, w1) = view m w in let (vs, w2) = views ms w1 in (v ∷ vs, w2)

  -- The data of a listing, with the page and the limit as they were asked for.
  pub record MonitorListing : Type 0 where
    pub rows : List MonitorResponse
    pub total : ℕ
    pub page : ℤ
    pub limit : ℤ

  abbrev or_number : Option ℤ → ℕ → ℤ
  or_number none n = ℤ.pos n
  or_number (some i) n = i

  abbrev listed : ℤ → ℤ → Result (List Monitor × ℕ) → State (ℕ × Option MonitorListing)
  listed page limit (err e) w = ((500, none), w)
  listed page limit (ok (ms, total)) w =
      let (vs, w1) = views ms w in
      ((200, some (record { rows = vs; total = total; page = page; limit = limit })), w1)

  -- `MonitorHandler.List`
  unfoldable pub list : Option ℤ → Option ℤ → State (ℕ × Option MonitorListing)
  list page limit w =
      let (r, w1) = list_monitors (or_number page 1) (or_number limit 20) w in
      listed (or_number page 1) (or_number limit 20) r w1

  abbrev got : Result Monitor → State (ℕ × Option MonitorResponse)
  got (err e) w = ((404, none), w)
  got (ok m) w = let (v, w1) = view m w in ((200, some v), w1)

  -- `MonitorHandler.Get`
  unfoldable pub get : String → State (ℕ × Option MonitorResponse)
  get id w = let (r, w1) = get_monitor id w in got r w1

  abbrev stats_answer : Result (StatsResponse floats) → ℕ × Option (StatsResponse floats)
  stats_answer (err not_found) = (404, none)
  stats_answer (err _) = (400, none)
  stats_answer (ok stats) = (200, some stats)

  -- `MonitorHandler.Stats`
  unfoldable pub stats : String → String → State (ℕ × Option (StatsResponse floats))
  stats id range w = let (r, w1) = get_stats floats id range w in (stats_answer r, w1)
