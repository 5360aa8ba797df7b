-- ===== src/Repo/Incidents.antt =====
-- internal/adapter/repo/incident_repo.go: the table incidents, with its unique index on the open
-- incident of a monitor (migrations/, idx_incidents_one_open_per_monitor).
pub mod Listed
use hivepulse.Prelude.{
  ℕ, String, ◌==◌, Bool, true, false, not, ◌&&◌, ◌||◌, none, some, List, [], ◌∷◌, ◌++◌, length, any,
  select, find, update, map, page_of, order_by, leb, if◌then◌else◌,
}
use hivepulse.Domain.{Result, ok, err, other, Time, Incident}
use hivepulse.World.{Db, Action, query, fetch}
use hivepulse.Repo.Monitors.{has_monitor}

abbrev pub is_open : Incident → Bool
is_open i = elim i.resolved_at [ none ↦ true | some t ↦ false ]

-- The open incidents of a monitor: `monitor_id = ? AND resolved_at IS NULL`.
abbrev pub open_of : String → Incident → Bool
open_of id i = i.monitor_id == id && is_open i

-- `IncidentRepo.Create`: a second open incident of one monitor breaks the unique index.
unfoldable pub create : Incident → Action (Unit {0})
create i = query (λ d.
    if has_monitor d i.monitor_id && not (is_open i && any (open_of i.monitor_id) d.incidents)
    then (ok tt, record d { incidents = d.incidents ++ i ∷ [] })
    else (err (other "incidents: constraint violated"), d))

abbrev pub resolved_with : Time → Incident → Incident
resolved_with at i = record i { resolved_at = some at }

-- `IncidentRepo.Resolve`
unfoldable pub resolve : String → Time → Action (Unit {0})
resolve id at =
    query
      (λ d. (ok tt, record d { incidents = update (open_of id) (resolved_with at) d.incidents }))

-- COALESCE(m.name, i.monitor_name) of the join with monitors.
abbrev current_name : Db → Incident → String
current_name d i = elim (find (λ m. m.id == i.monitor_id) d.monitors) [
  | none ↦ i.monitor_name
  | some m ↦ m.name
]

abbrev pub with_current_name : Db → Incident → Incident
with_current_name d i = record i { monitor_name = current_name d i }

abbrev pub newest_first : Incident → Incident → Bool
newest_first a b = leb b.started_at a.started_at

abbrev oldest_first : Incident → Incident → Bool
oldest_first a b = leb a.started_at b.started_at

-- `ilike name q` is PostgreSQL's `name ILIKE '%' || q || '%'`.
module _ (ilike : String → String → Bool) where
  -- `incidentBaseQuery` and one more condition
  abbrev pub base_query : (Incident → Bool) → String → Db → List Incident
  base_query also q d = select (λ i. also i && (q == "" || ilike (current_name d i) q)) d.incidents

  abbrev pub page_rows : (Incident → Bool) → String → ℕ → ℕ → Db → List Incident
  page_rows also q offset limit d =
      page_of offset limit (order_by newest_first (base_query also q d))

  abbrev pub counted_rows :
      (Incident → Bool) → String → ℕ → ℕ → Result ℕ → Action (List Incident × ℕ)
  counted_rows also q offset limit (err e) w = (err e, w)
  counted_rows also q offset limit (ok total) w =
      fetch (λ d. ok (map (with_current_name d) (page_rows also q offset limit d), total)) w

  -- The shape of the three listings: the count, then a page of the rows.
  unfoldable pub listing : (Incident → Bool) → String → ℕ → ℕ → Action (List Incident × ℕ)
  listing also q offset limit w =
      let (counted, w1) = fetch (λ d. ok (length (base_query also q d))) w in
      counted_rows also q offset limit counted w1

  -- `IncidentRepo.FindActive`
  unfoldable pub find_active : String → ℕ → ℕ → Action (List Incident × ℕ)
  unfolding listing
  find_active = listing is_open

  -- `IncidentRepo.FindRecent`
  unfoldable pub find_recent : String → ℕ → ℕ → Action (List Incident × ℕ)
  unfolding listing
  find_recent = listing (λ i. true)

  -- `IncidentRepo.FindResolved`
  unfoldable pub find_resolved : String → ℕ → ℕ → Action (List Incident × ℕ)
  unfolding listing
  find_resolved = listing (λ i. not (is_open i))

abbrev without_name : Incident → Incident
without_name i = record i { monitor_name = "" }

abbrev pub in_range : String → Time → Db → Result (List Incident)
in_range id since d = ok (
    map without_name (
      order_by oldest_first
        (select (λ i. i.monitor_id == id && leb since i.started_at) d.incidents)))

-- `IncidentRepo.FindByMonitorAndTimeRange`; the name is not selected.
unfoldable pub find_by_monitor_and_time_range : String → Time → Action (List Incident)
find_by_monitor_and_time_range id since = fetch (in_range id since)
