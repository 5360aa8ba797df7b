-- ===== src/Repo/Stats.antt =====
-- internal/adapter/repo/stats_repo.go: the tables stats_hourly, stats_minutely and stats_daily.
pub mod Sums
use hivepulse.Prelude.{
  ℕ, ◌+◌, ◌*◌, ◌/◌, zero, suc, String, ◌==◌, Bool, ◌&&◌, List, [], ◌∷◌, select, order_by, eqb, leb,
  ltb, if◌then◌else◌,
}
use hivepulse.Domain.{ok, Time, StatsBucket, BucketRow}
use hivepulse.World.{Db, Action, fetch}

abbrev pub bucket : BucketRow → StatsBucket
bucket r = record {
  time = r.time;
  up_count = r.up_count;
  total_count = r.total_count;
  avg_ping_ms = r.avg_ping_ms;
}

abbrev pub buckets : List BucketRow → List StatsBucket
buckets [] = []
buckets (r ∷ rs) = bucket r ∷ buckets rs

abbrev pub since_of : String → Time → BucketRow → Bool
since_of id since r = r.monitor_id == id && leb since r.time

abbrev earlier_first : BucketRow → BucketRow → Bool
earlier_first a b = leb a.time b.time

-- The rows of a monitor since then, the earliest first.
unfoldable pub series : String → Time → List BucketRow → List StatsBucket
series id since rows = buckets (order_by earlier_first (select (since_of id since) rows))

-- `StatsRepo.GetHourly`
unfoldable pub get_hourly : String → Time → Action (List StatsBucket)
get_hourly id since = fetch (λ d. ok (series id since d.hourly))

-- `StatsRepo.GetMinutely`
unfoldable pub get_minutely : String → Time → Action (List StatsBucket)
get_minutely id since = fetch (λ d. ok (series id since d.minutely))

-- `StatsRepo.GetDaily`
unfoldable pub get_daily : String → Time → Action (List StatsBucket)
get_daily id since = fetch (λ d. ok (series id since d.daily))

-- A group of `GROUP BY hour`, with SUM(avg_ping_ms * total_count).
pub record Group : Type 0 where
  pub time : Time
  pub up_count : ℕ
  pub total_count : ℕ
  pub weighted : ℕ

abbrev pub group_of : BucketRow → Group
group_of r = record {
  time = r.time;
  up_count = r.up_count;
  total_count = r.total_count;
  weighted = r.avg_ping_ms * r.total_count;
}

abbrev pub joined : BucketRow → Group → Group
joined r g = record {
  time = g.time;
  up_count = r.up_count + g.up_count;
  total_count = r.total_count + g.total_count;
  weighted = r.avg_ping_ms * r.total_count + g.weighted;
}

-- A row is counted in the group of its hour; the groups stand in the order of their hours.
unfoldable pub add_row : BucketRow → List Group → List Group
add_row r [] = group_of r ∷ []
add_row r (g ∷ gs) =
    let more = add_row r gs in
    if eqb g.time r.time
    then joined r g ∷ gs
    else if ltb r.time g.time
    then group_of r ∷ g ∷ gs
    else g ∷ more

unfoldable pub groups : List BucketRow → List Group
groups [] = []
groups (r ∷ rs) = add_row r (groups rs)

-- CASE WHEN SUM(total_count) > 0 THEN (… / …)::int ELSE 0 END: a quotient of numerics, which the cast
-- rounds to the nearest integer, halves up.
abbrev pub weighted_mean : ℕ → ℕ → ℕ
weighted_mean sum zero = 0
weighted_mean sum (suc n) = (2 * sum + suc n) / (2 * suc n)

abbrev pub global_bucket : Group → StatsBucket
global_bucket g = record {
  time = g.time;
  up_count = g.up_count;
  total_count = g.total_count;
  avg_ping_ms = weighted_mean g.weighted g.total_count;
}

abbrev pub global_buckets : List Group → List StatsBucket
global_buckets [] = []
global_buckets (g ∷ gs) = global_bucket g ∷ global_buckets gs

abbrev pub hours_since : Time → List BucketRow → List BucketRow
hours_since since rows = select (λ r. leb since r.time) rows

-- `StatsRepo.GetGlobalHourly`
unfoldable pub get_global_hourly : Time → Action (List StatsBucket)
get_global_hourly since = fetch (λ d. ok (global_buckets (groups (hours_since since d.hourly))))
