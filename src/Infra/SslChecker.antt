-- ===== src/Infra/SslChecker.antt =====
-- internal/infrastructure/ssl_checker.go. The days that a certificate is still valid are a parameter: `none`
-- is an error of the connection. The ticker of `Start` is left out.
pub mod Daily
use hivepulse.Prelude.{
  ℕ, ◌*◌, String, Bool, true, false, not, ◌&&◌, Option, none, some, List, [], ◌∷◌, ℤ, ltb_ℤ,
  if◌then◌else◌,
}
use hivepulse.Domain.{Result, ok, err, hour, Monitor, event_ssl_expiry}
use hivepulse.World.{World, Action}
use hivepulse.Repo.Monitors
use hivepulse.Repo.Logs
use hivepulse.Usecase.Notification.{Services, notify}
use hivepulse.Service.Text.{has_prefix}

-- Whether a warning was logged within the last day; an error counts as one.
abbrev warned : Result Bool → Bool
warned (err e) = true
warned (ok recent) = recent

abbrev warn_unless : Services → Bool → Monitor → World → World
warn_unless sv true m w = w
warn_unless sv false m w = notify sv m.id event_ssl_expiry w

abbrev warn_expiring : Services → Option ℤ → Monitor → World → World
warn_expiring sv none m w = w
warn_expiring sv (some days) m w =
    if not (ltb_ℤ days (ℤ.pos 30))
    then w
    else (let (r, w1) = Logs.has_recent_ssl_log m.id (24 * hour) w in
        warn_unless sv (warned r) m w1)

unfoldable pub checks : Monitor → Bool
unfolding has_prefix
checks m = m.enabled && has_prefix m.url "https://"

module _ (sv : Services) (days_remaining : String → Option ℤ) where
  -- One round of the loop.
  unfoldable pub warn : Monitor → World → World
  unfolding notify
  warn m w = if checks m then warn_expiring sv (days_remaining m.url) m w else w

  unfoldable pub warn_all : List Monitor → World → World
  unfolding warn
  warn_all [] w = w
  warn_all (m ∷ ms) w = warn_all ms (warn m w)

  abbrev pub ticked : Result (List Monitor × ℕ) → Action (Unit {0})
  ticked (err e) w = (err e, w)
  ticked (ok (ms, total)) w = (ok tt, warn_all ms w)

  -- `SSLChecker.Tick`
  unfoldable pub tick : Action (Unit {0})
  tick w = let (r, w1) = Monitors.find_all 1 1000 w in ticked r w1
