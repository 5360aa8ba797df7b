-- ===== src/Tests/Certificates.antt =====
-- A certificate that expires in twelve days, looked at every six hours.
use hivepulse.Prelude.{
  String, ℕ, ◌+◌, ◌*◌, ◌≡◌, refl, true, none, some, Option, [], ◌∷◌, ◌++◌, ℤ, arith,
}
use hivepulse.Domain.{ok, hour, Monitor, NotificationChannel, event_ssl_expiry}
use hivepulse.World.{World}
use hivepulse.Usecase.Notification.{Services}
use hivepulse.Usecase.Notification.Everyone.{globals, told_all}
use hivepulse.Infra.SslChecker.{checks, warn, warn_all, tick}
use hivepulse.Infra.SslChecker.Daily.{warned_daily}
use hivepulse.Tests.Data.{start, site, hook, told, tables, world_of}

-- The receiver refuses everything.
abbrev broken : ℕ → NotificationChannel → String → Monitor → Option String
broken attempt ch event m = some "refused"

abbrev services : Services
services = record { send = broken; load_location = λ zone. none; timezone = none }

abbrev expires : String → Option ℤ
expires url = some (ℤ.pos 12)

-- A newer monitor without a certificate.
abbrev port : Monitor
port = record site { id = "m2"; check_type = "tcp"; url = ""; created_at = 2 }

abbrev morning : World
morning = world_of (record (tables []) { monitors = site ∷ port ∷ [] })

-- The monitor was edited in the meantime, and an outage logged.
abbrev edited : Monitor
edited = record site { interval = ℤ.pos 300 }

abbrev noon : World
noon =
    record (world_of (record (tables []) {
      monitors = edited ∷ port ∷ [];
      logs =
          (warn services expires site (warn_all services expires (port ∷ []) morning)).db.logs
          ++ told ∷ [];
    })) { now = start + 6 * hour }

site-checks : checks site ≡ true
unfolding checks
site-checks = refl

warned_daily_example :
    let turn = warn_all services expires (port ∷ []) morning in
    (tick services expires morning ≡ (
      ok tt,
      warn_all services expires []
          (told_all services "m1" event_ssl_expiry site (globals turn.db) turn),
    ))
    × (tick services expires noon
        ≡ (ok tt, warn_all services expires [] (warn_all services expires (port ∷ []) noon)))
unfolding warn_all warn checks
warned_daily_example =
    warned_daily services services expires expires site edited (ℤ.pos 12) hook [] morning noon
      (port ∷ []) [] (port ∷ []) [] (told ∷ []) refl refl refl (omega arith) refl site-checks refl
      refl refl refl refl refl refl refl refl (omega arith) refl
