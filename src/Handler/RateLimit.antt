-- ===== src/Handler/RateLimit.antt =====
-- internal/adapter/middleware/rate_limiter.go: the library ulule/limiter counts the requests of a client,
-- and says of each whether the limit is reached.
use hivepulse.Prelude.{String, Bool, if◌then◌else◌}
use hivepulse.Domain.{Time}
use hivepulse.Handler.Guards.{Verdict, passes, refused}

-- `limiter.New` with the store in memory and a rate.
pub record Limiter : Type 1 where
  pub Store : Type 0
  pub reached : String → Time → Store → Bool × Store

module _ (limiter : Limiter) where
  open limiter use {Store, reached}

  -- `RateLimiter`
  unfoldable pub rate_limiter : String → Time → Store → Verdict × Store
  rate_limiter client now store =
      let (over, store1) = reached client now store in
      (if over then refused 429 else passes, store1)
