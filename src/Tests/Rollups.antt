-- ===== src/Tests/Rollups.antt =====
-- Two heartbeats of one hour, on both sides of the edge of the window, and one of the next hour.
use hivepulse.Prelude.{◌+◌, ◌*◌, ◌<◌, ◌≡◌, refl, some, [], ◌∷◌, find, arith}
use hivepulse.Domain.{Time, minute, hour, BucketRow}
use hivepulse.World.{Db}
use hivepulse.Infra.Aggregator.{bucket_of, has_key, roll_up}
use hivepulse.Infra.Aggregator.Buckets.{roll_up-exact, roll_up_undercounts}
use hivepulse.Tests.Data.{tables, start, beat}
use hivepulse.Prelude.{ℕ, ◌-◌, ◌≤◌}
use hivepulse.Domain.{OverviewStats, ok}
use hivepulse.World.{World}
use hivepulse.Repo.Stats.{hours_since}
use hivepulse.Repo.Stats.Sums.{sum_of}
use hivepulse.Usecase.Stats.{get_overview, total_all, total_up}
use hivepulse.Usecase.Stats.Mean.{get_overview_lem}
use hivepulse.Tests.Data.{world_of}

-- Half past the second hour after the start.
abbrev now : Time
now = start + 2 * hour + 30 * minute

abbrev rows : Db
rows = record (tables []) {
  heartbeats =
      beat "up" (start + 10 * minute)
      ∷ beat "up" (start + 40 * minute)
      ∷ beat "down" (start + hour + 5 * minute)
      ∷ [];
  hourly =
      record { monitor_id = "m1"; time = start; up_count = 2; total_count = 2; avg_ping_ms = 12 }
      ∷ [];
  minutely = [];
  daily = [];
}

roll_up-exact_example :
    find (has_key "m1" (start + hour)) (roll_up now rows).hourly
    ≡ some (bucket_of hour rows.heartbeats "m1" (start + hour))
roll_up-exact_example = roll_up-exact now "m1" (start + hour) rows (omega arith) refl

roll_up_undercounts_example :
    (b : BucketRow) × (find (has_key "m1" start) (roll_up now rows).hourly ≡ some b)
    × (b.total_count < (bucket_of hour rows.heartbeats "m1" start).total_count)
roll_up_undercounts_example = roll_up_undercounts now "m1" start rows (omega arith) refl refl

abbrev two_monitors : World
two_monitors = world_of (record (tables []) {
  hourly =
      record { monitor_id = "m1"; time = start; up_count = 2; total_count = 2; avg_ping_ms = 12 }
      ∷ record { monitor_id = "m2"; time = start; up_count = 1; total_count = 4; avg_ping_ms = 30 }
      ∷ [];
})

abbrev counted : ℕ
counted =
    sum_of (λ r. r.total_count) (hours_since (two_monitors.now - 12 * hour) two_monitors.db.hourly)

abbrev counted_up : ℕ
counted_up =
    sum_of (λ r. r.up_count) (hours_since (two_monitors.now - 12 * hour) two_monitors.db.hourly)

get_overview_example :
    (o : OverviewStats) × (get_overview two_monitors ≡ (ok o, two_monitors))
    × (total_all o.buckets ≡ counted)
    × (total_up o.buckets ≡ counted_up)
    × (o.avg_ping_ms ≤ 40)
get_overview_example = get_overview_lem 40 two_monitors refl refl
