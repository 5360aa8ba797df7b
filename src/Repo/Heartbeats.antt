-- ===== src/Repo/Heartbeats.antt =====
-- internal/adapter/repo/heartbeat_repo.go: the table heartbeats.
use hivepulse.Prelude.{
  ℕ, String, ◌==◌, Bool, ◌&&◌, ◌||◌, List, [], ◌∷◌, ◌++◌, length, select, take, order_by, leb,
  if◌then◌else◌,
}
use hivepulse.Domain.{Result, ok, err, other, Time, Heartbeat}
use hivepulse.World.{Db, Action, query, fetch}
use hivepulse.Repo.Monitors.{has_monitor}

-- `HeartbeatRepo.Create`; the serial number of the row is not modelled.
unfoldable pub create : Heartbeat → Action (Unit {0})
create h = query (λ d.
    if has_monitor d h.monitor_id && (h.status == "up" || h.status == "down")
    then (ok tt, record d { heartbeats = d.heartbeats ++ h ∷ [] })
    else (err (other "heartbeats: constraint violated"), d))

abbrev latest_first : Heartbeat → Heartbeat → Bool
latest_first a b = leb b.checked_at a.checked_at

-- `HeartbeatRepo.FindLatest`
unfoldable pub find_latest : String → ℕ → Action (List Heartbeat)
find_latest id limit =
    fetch
      (λ d. ok (take limit (order_by latest_first (select (λ h. h.monitor_id == id) d.heartbeats))))

abbrev since_of : String → Time → Heartbeat → Bool
since_of id since h = h.monitor_id == id && leb since h.checked_at

abbrev pub count_since : String → Time → Db → Result ℕ
count_since id since d = ok (length (select (since_of id since) d.heartbeats))

abbrev pub uptime_of : String → Time → ℕ → Db → Result (ℕ × ℕ)
uptime_of id since total d =
    ok (length (select (λ h. since_of id since h && h.status == "up") d.heartbeats), total)

abbrev pub count_up : String → Time → Result ℕ → Action (ℕ × ℕ)
count_up id since (err e) w = (err e, w)
count_up id since (ok total) w = fetch (uptime_of id since total) w

-- `HeartbeatRepo.GetUptime`: how many heartbeats since then were up, and how many there were.
unfoldable pub get_uptime : String → Time → Action (ℕ × ℕ)
get_uptime id since w =
    let (counted, w1) = fetch (count_since id since) w in count_up id since counted w1
