-- ===== src/Usecase/Stats.antt =====
-- internal/usecase/stats_usecase.go.
pub mod Mean
use hivepulse.Prelude.{
  ℕ, zero, suc, ◌+◌, ◌-◌, ◌*◌, ◌/◌, String, ◌==◌, Option, none, some, List, [], ◌∷◌, length,
  if◌then◌else◌,
}
use hivepulse.Domain.{
  Error, Result, ok, err, other, Time, hour, day, Incident, StatsBucket, DownPeriod, OverviewStats,
  StatsResponse, Floats,
}
use hivepulse.World.{World, Action}
use hivepulse.Repo.Incidents
use hivepulse.Repo.Stats

-- The table that a range is read from.
pub data Source : Type 0 where
  minutely hourly daily : Source

-- The `switch` on `rangeParam`: the table, and how far back.
unfoldable pub range_of : String → Option (Source × ℕ)
range_of r =
    if r == "1h"
    then some (minutely, hour)
    else if r == "3h"
    then some (minutely, 3 * hour)
    else if r == "6h"
    then some (minutely, 6 * hour)
    else if r == "24h"
    then some (minutely, 24 * hour)
    else if r == "48h"
    then some (hourly, 48 * hour)
    else if r == "7d"
    then some (hourly, 7 * day)
    else if r == "15d"
    then some (hourly, 15 * day)
    else if r == "30d"
    then some (daily, 30 * day)
    else if r == "90d"
    then some (daily, 90 * day)
    else none

abbrev pub read_source : Source → String → Time → Action (List StatsBucket)
read_source minutely = Stats.get_minutely
read_source hourly = Stats.get_hourly
read_source daily = Stats.get_daily

abbrev pub down_periods : List Incident → List DownPeriod
down_periods [] = []
down_periods (i ∷ is) =
    record { started_at = i.started_at; resolved_at = i.resolved_at } ∷ down_periods is

-- The sums of the loops.
abbrev pub total_up : List StatsBucket → ℕ
total_up [] = 0
total_up (b ∷ bs) = b.up_count + total_up bs

abbrev pub total_all : List StatsBucket → ℕ
total_all [] = 0
total_all (b ∷ bs) = b.total_count + total_all bs

abbrev pub sum_avg : List StatsBucket → ℕ
sum_avg [] = 0
sum_avg (b ∷ bs) = b.avg_ping_ms + sum_avg bs

abbrev pub sum_weighted : List StatsBucket → ℕ
sum_weighted [] = 0
sum_weighted (b ∷ bs) = b.avg_ping_ms * b.total_count + sum_weighted bs

-- A division that is not made if the divisor is 0.
abbrev pub quotient_or_zero : ℕ → ℕ → ℕ
quotient_or_zero sum zero = 0
quotient_or_zero sum (suc n) = sum / suc n

module _ (floats : Floats) where
  open floats use {Float, nought, ratio, to_percent}

  abbrev pub uptime_pct : ℕ → ℕ → Float
  uptime_pct up zero = nought
  uptime_pct up (suc n) = to_percent (ratio up (suc n))

  abbrev pub response : List StatsBucket → List Incident → StatsResponse floats
  response buckets incidents = record {
    uptime_pct = uptime_pct (total_up buckets) (total_all buckets);
    avg_ping_ms = quotient_or_zero (sum_avg buckets) (length buckets);
    buckets = buckets;
    down_periods = down_periods incidents;
  }

  abbrev pub with_incidents :
      List StatsBucket → Result (List Incident) → Result (StatsResponse floats)
  with_incidents buckets (err e) = err e
  with_incidents buckets (ok incidents) = ok (response buckets incidents)

  abbrev pub with_buckets :
      String → Time → Result (List StatsBucket) → Action (StatsResponse floats)
  with_buckets id since (err e) w = (err e, w)
  with_buckets id since (ok buckets) w =
      let (r, w1) = Incidents.find_by_monitor_and_time_range id since w in
      (with_incidents buckets r, w1)

  abbrev pub stats_in : String → Option (Source × ℕ) → Action (StatsResponse floats)
  stats_in id none w = (err (other "invalid range"), w)
  stats_in id (some (source, back)) w =
      let (r, w1) = read_source source id (w.now - back) w in with_buckets id (w.now - back) r w1

  -- `StatsUsecase.GetStats`
  unfoldable pub get_stats : String → String → Action (StatsResponse floats)
  unfolding range_of
  get_stats id range w = stats_in id (range_of range) w

abbrev pub overview : Result (List StatsBucket) → Result OverviewStats
overview (err e) = err e
overview (ok buckets) = ok (record {
  avg_ping_ms = quotient_or_zero (sum_weighted buckets) (total_all buckets);
  buckets = buckets;
})

-- `StatsUsecase.GetOverview`
unfoldable pub get_overview : Action OverviewStats
get_overview w = let (r, w1) = Stats.get_global_hourly (w.now - 12 * hour) w in (overview r, w1)
