-- ===== src/Domain/Public.antt =====
-- The response types with a float64: `StatsResponse` of internal/domain/stats.go and those of
-- status_page.go. What the code does with a float64 is a parameter.
use hivepulse.Prelude.{ℕ, String, Option, List}
use hivepulse.Domain.Monitoring.{Time}
use hivepulse.Domain.Stats.{StatsBucket, DownPeriod}

-- The constant 0.0, `float64(a) / float64(b)`, `x * 100` and `x / 100.0`.
pub record Floats : Type 1 where
  pub Float : Type 0
  pub nought : Float
  pub ratio : ℕ → ℕ → Float
  pub to_percent : Float → Float
  pub of_percent : Float → Float

pub record PublicIncident : Type 0 where
  pub id : ℕ
  pub monitor_name : String
  pub started_at : Time
  pub resolved_at : Option Time
  pub duration_s : ℕ
  pub error_msg : String

module _ (floats : Floats) where
  open floats use {Float}

  pub record StatsResponse : Type 0 where
    pub uptime_pct : Float
    pub avg_ping_ms : ℕ
    pub buckets : List StatsBucket
    pub down_periods : List DownPeriod

  -- `date` is the time that is formatted as a date.
  pub record DailyBucket : Type 0 where
    pub date : Time
    pub uptime_pct : Float

  pub record PublicMonitorRow : Type 0 where
    pub id : String
    pub name : String
    pub check_type : String
    pub last_status : String
    pub uptime_24h : Float
    pub uptime_90d : Float
    pub daily_buckets : List DailyBucket

  pub record PublicStatusPageData : Type 0 where
    pub title : String
    pub description : String
    pub accent_color : String
    pub logo_url : String
    pub overall_status : String
    pub monitors : List PublicMonitorRow
    pub active_incidents : List PublicIncident
    pub recent_incidents : List PublicIncident
