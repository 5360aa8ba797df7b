-- ===== src/Handler/Incidents.antt =====
-- internal/adapter/handler/incident_handler.go. The times in a response are not formatted.
use hivepulse.Prelude.{
  ℕ, ◌-◌, ◌/◌, String, ◌==◌, Bool, ◌||◌, Option, none, some, List, map, ℤ, ltb_ℤ, to_nat,
  if◌then◌else◌,
}
use hivepulse.Domain.{Time, second, Incident}
use hivepulse.World.{State, Action}
use hivepulse.Repo.Incidents
use hivepulse.Handler.Replies.{reply, always, or_number}

pub record IncidentResponse : Type 0 where
  pub id : ℕ
  pub monitor_id : String
  pub monitor_name : String
  pub started_at : Time
  pub resolved_at : Option Time
  pub duration_s : ℕ
  pub error_msg : String

-- Until the resolution, or until now.
abbrev ended : Time → Option Time → Time
ended now none = now
ended now (some t) = t

-- `toIncidentResponse`, for an incident that does not end before it starts.
unfoldable pub to_incident_response : Time → Incident → IncidentResponse
to_incident_response now i = record {
  id = i.id;
  monitor_id = i.monitor_id;
  monitor_name = i.monitor_name;
  started_at = i.started_at;
  resolved_at = i.resolved_at;
  duration_s = (ended now i.resolved_at - i.started_at) / second;
  error_msg = i.error_msg;
}

abbrev responses : Time → List Incident × ℕ → List IncidentResponse × ℕ
unfolding to_incident_response
responses now (is, total) = (map (to_incident_response now) is, total)

unfoldable pub clamp_limit : ℤ → ℕ
clamp_limit limit = if ltb_ℤ limit (ℤ.pos 1) || ltb_ℤ (ℤ.pos 200) limit then 20 else to_nat limit

unfoldable pub clamp_offset : ℤ → ℕ
clamp_offset offset = if ltb_ℤ offset (ℤ.pos 0) then 0 else to_nat offset

abbrev or_all : Option String → String
or_all none = "all"
or_all (some s) = s

module _ (ilike : String → String → Bool) where
  -- The `switch` on the status.
  abbrev find : String → String → ℕ → ℕ → Action (List Incident × ℕ)
  find status q offset limit =
      if status == "active"
      then Incidents.find_active ilike q offset limit
      else if status == "resolved"
      then Incidents.find_resolved ilike q offset limit
      else Incidents.find_recent ilike q offset limit

  -- `IncidentHandler.List`
  unfoldable pub list :
      Option String → String → Option ℤ → Option ℤ → State (ℕ × Option (List IncidentResponse × ℕ))
  unfolding clamp_limit clamp_offset responses
  list status q offset limit w =
      let (r, w1) =
        find (or_all status) q (clamp_offset (or_number offset 0))
          (clamp_limit (or_number limit 20)) w in
      (reply (always 500) 200 (responses w.now) r, w1)
