-- ===== src/Usecase/Pages/Public.antt =====
-- `StatusPageUsecase.GetPublic` of internal/usecase/status_page_usecase.go. All the repositories are
-- there, as in main.go.
use hivepulse.Prelude.{
  ℕ, ◌-◌, ◌*◌, ◌/◌, zero, suc, String, ◌==◌, Bool, Option, none, some, List, [], ◌∷◌, any, select,
  take,
}
use hivepulse.Domain.{
  Result, ok, err, not_found, Time, second, hour, Monitor, Incident, StatusPage, StatsBucket,
  Floats, StatsResponse, DailyBucket, PublicMonitorRow, PublicIncident, PublicStatusPageData,
}
use hivepulse.World.{State, Action}
use hivepulse.Repo.Pages
use hivepulse.Repo.Monitors
use hivepulse.Repo.Heartbeats
use hivepulse.Repo.Incidents
use hivepulse.Usecase.Stats.{get_stats}
use hivepulse.Usecase.Slug.{compute_overall_status}
use hivepulse.Usecase.Pages.{or_empty}

-- `monitorIDs[inc.MonitorID]`
abbrev pub shown : List Monitor → Incident → Bool
shown ms i = any (λ m. m.id == i.monitor_id) ms

abbrev pub public_active : Incident → PublicIncident
public_active i = record {
  id = i.id;
  monitor_name = i.monitor_name;
  started_at = i.started_at;
  resolved_at = none;
  duration_s = 0;
  error_msg = i.error_msg;
}

-- The whole seconds of `ResolvedAt.Sub(StartedAt)`, for an incident that is not resolved before it starts.
abbrev duration_s : Time → Option Time → ℕ
duration_s started none = 0
duration_s started (some t) = (t - started) / second

abbrev pub public_resolved : Incident → PublicIncident
public_resolved i = record {
  id = i.id;
  monitor_name = i.monitor_name;
  started_at = i.started_at;
  resolved_at = i.resolved_at;
  duration_s = duration_s i.started_at i.resolved_at;
  error_msg = i.error_msg;
}

abbrev pub actives : List Incident → List PublicIncident
actives [] = []
actives (i ∷ is) = public_active i ∷ actives is

abbrev pub resolveds : List Incident → List PublicIncident
resolveds [] = []
resolveds (i ∷ is) = public_resolved i ∷ resolveds is

-- `if len(tagIDs) > 0`
abbrev pub monitors_tagged : List String → State (List Monitor)
monitors_tagged [] w = ([], w)
monitors_tagged (t ∷ ts) w = let (r, w1) = Monitors.find_by_tag_ids (t ∷ ts) w in (or_empty r, w1)

abbrev pub active_shown : List Monitor → Result (List Incident × ℕ) → List PublicIncident
active_shown ms (err e) = []
active_shown ms (ok (is, total)) = actives (select (shown ms) is)

abbrev pub resolved_shown : List Monitor → Result (List Incident × ℕ) → List PublicIncident
resolved_shown ms (err e) = []
resolved_shown ms (ok (is, total)) = resolveds (take 10 (select (shown ms) is))

module _ (floats : Floats) where
  open floats use {Float, nought, ratio, of_percent}

  abbrev share : ℕ → ℕ → Float
  share up zero = nought
  share up (suc n) = ratio up (suc n)

  abbrev uptime_24h : Result (ℕ × ℕ) → Float
  uptime_24h (err e) = nought
  uptime_24h (ok (up, total)) = share up total

  abbrev days : List StatsBucket → List (DailyBucket floats)
  days [] = []
  days (b ∷ bs) = record { date = b.time; uptime_pct = share b.up_count b.total_count } ∷ days bs

  abbrev uptime_90d : Result (StatsResponse floats) → Float
  uptime_90d (err e) = nought
  uptime_90d (ok stats) = of_percent stats.uptime_pct

  abbrev daily_of : Result (StatsResponse floats) → List (DailyBucket floats)
  daily_of (err e) = []
  daily_of (ok stats) = days stats.buckets

  -- A monitor's row; what cannot be read is left at its zero value.
  abbrev row_of : Monitor → State (PublicMonitorRow floats)
  row_of m w =
      let (up, w1) = Heartbeats.get_uptime m.id (w.now - 24 * hour) w in
      let (stats, w2) = get_stats floats m.id "90d" w1 in
      (
        record {
          id = m.id;
          name = m.name;
          check_type = m.check_type;
          last_status = m.last_status;
          uptime_24h = uptime_24h up;
          uptime_90d = uptime_90d stats;
          daily_buckets = daily_of stats;
        },
        w2,
      )

  abbrev pub rows_of : List Monitor → State (List (PublicMonitorRow floats))
  rows_of [] w = ([], w)
  rows_of (m ∷ ms) w =
      let (row, w1) = row_of m w in let (rows, w2) = rows_of ms w1 in (row ∷ rows, w2)

  abbrev last_statuses : List (PublicMonitorRow floats) → List String
  last_statuses [] = []
  last_statuses (row ∷ rows) = row.last_status ∷ last_statuses rows

  module _ (ilike : String → String → Bool) where
    unfoldable pub page_found : Result StatusPage → Action (PublicStatusPageData floats)
    unfolding compute_overall_status
    page_found (err e) w = (err not_found, w)
    page_found (ok sp) w =
        let (tags, w1) = Pages.get_tag_ids sp.id w in
        let (ms, w2) = monitors_tagged (or_empty tags) w1 in
        let (rows, w3) = rows_of ms w2 in
        let (active, w4) = Incidents.find_active ilike "" 0 10 w3 in
        let (resolved, w5) = Incidents.find_resolved ilike "" 0 50 w4 in
        (
          ok (record {
            title = sp.title;
            description = sp.description;
            accent_color = sp.accent_color;
            logo_url = sp.logo_url;
            overall_status = compute_overall_status (last_statuses rows);
            monitors = rows;
            active_incidents = active_shown ms active;
            recent_incidents = resolved_shown ms resolved;
          }),
          w5,
        )

    -- `GetPublic`; `ilike` is PostgreSQL's, which an empty search does not reach.
    unfoldable pub get_public : String → Action (PublicStatusPageData floats)
    get_public slug w = let (r, w1) = Pages.find_by_slug slug w in page_found r w1
