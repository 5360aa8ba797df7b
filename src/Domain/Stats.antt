-- ===== src/Domain/Stats.antt =====
-- internal/domain/stats.go, and a row of the tables stats_hourly, stats_minutely and stats_daily.
use hivepulse.Prelude.{ℕ, String, Option, List}
use hivepulse.Domain.Monitoring.{Time}

pub record StatsBucket : Type 0 where
  pub time : Time
  pub up_count : ℕ
  pub total_count : ℕ
  pub avg_ping_ms : ℕ

pub record DownPeriod : Type 0 where
  pub started_at : Time
  pub resolved_at : Option Time

pub record OverviewStats : Type 0 where
  pub avg_ping_ms : ℕ
  pub buckets : List StatsBucket

pub record BucketRow : Type 0 where
  pub monitor_id : String
  pub time : Time
  pub up_count : ℕ
  pub total_count : ℕ
  pub avg_ping_ms : ℕ
