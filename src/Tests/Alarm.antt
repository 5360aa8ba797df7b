-- ===== src/Tests/Alarm.antt =====
-- Notifications that the whole program makes, and its configuration.
use hivepulse.Prelude.{
  ℕ, String, ◌==◌, ◌≡◌, refl, true, false, not, ◌&&◌, ◌||◌, none, some, [], ◌∷◌, ◌++◌, any, ℤ,
  eqb_ℤ, if◌then◌else◌,
}
use hivepulse.Domain.{
  Result, ok, err, is_ok, other, Monitor, Heartbeat, NotificationChannel, SmtpConfig,
}
use hivepulse.World.{World}
use hivepulse.Repo.Windows.{covers}
use hivepulse.Usecase.Checker.{run_check}
use hivepulse.Usecase.Checker.Steps.{found_in, has_open}
use hivepulse.Usecase.Notification.{deliver, delivery, notify}
use hivepulse.Usecase.Notification.Sending.{row_of}
use hivepulse.Usecase.Notification.Everyone.{globals, told_all}
use hivepulse.Service.Senders.{replied}
use hivepulse.Program.{Outside}
use hivepulse.Program.Unsent.{Zones, services, unsent_mail_is_logged_sent}
use hivepulse.Program.Alarm.{outage_is_told}
use hivepulse.Program.Config.{get_env, smtp_port, load_config, load_config-is_ok}
use hivepulse.Tests.Data.{start, site, hook, tables, world_of, only_http, beat}

-- Every webhook answers 200, and every mail is refused.
abbrev internet : Outside
internet = record {
  send_mail = λ mail. some "refused";
  post_hook = λ url payload signature. replied 200;
  post_slack = λ url text. replied 200;
  sign = λ secret payload. "";
}

abbrev no_server : SmtpConfig
no_server = record { host = ""; port = ℤ.pos 587; user = ""; password = ""; from = "" }

abbrev no_zones : Zones
no_zones = record { load_location = λ zone. none; timezone = none }

abbrev mailbox : NotificationChannel
mailbox = record hook { id = "c2"; kind = "email"; config = ("to", "ops@b.c") ∷ [] }

abbrev well : Monitor
well = record site { last_status = "up" }

abbrev installation : World
installation = world_of (record (tables []) {
  monitors = well ∷ [];
  incidents = [];
  channels = hook ∷ mailbox ∷ [];
  logs = [];
})

abbrev fails : ℕ → Monitor → Heartbeat
fails i k = beat "down" start

fails_down : (i : ℕ) → ((fails i well).status == "down") ≡ true
fails_down i = refl

fails_clear : (i : ℕ) → any (covers "m1" (fails i well).checked_at) installation.db.windows ≡ false
fails_clear i = refl

outage_is_told_example :
    (v : World) × (row : Monitor) × (run_check (only_http fails) true "m1" installation ≡ some v)
    × (found_in "m1" v ≡ some row)
    × (has_open "m1" v ≡ true)
    × (v.spawned ≡ installation.spawned ++ record { monitor_id = "m1"; event = "down" } ∷ [])
    × (notify (services internet no_server start no_zones) "m1" "down" v
        ≡ told_all
            (services internet no_server start no_zones)
            "m1"
            "down"
            row
            (globals installation.db)
            v)
outage_is_told_example =
    outage_is_told (only_http fails) (services internet no_server start no_zones) "m1" well
      installation fails 2 refl refl refl refl refl refl refl fails_down fails_clear refl

unsent_mail_is_logged_sent_example :
    deliver (services internet no_server start no_zones) "m1" mailbox "down" (ok well) installation
    ≡ record installation {
      db = record installation.db {
        logs = installation.db.logs ++ row_of "m1" mailbox "down" installation.now none ∷ [];
      };
      outbox = installation.outbox ++ delivery mailbox "down" well none ∷ [];
    }
unsent_mail_is_logged_sent_example =
    unsent_mail_is_logged_sent internet no_server start no_zones "m1" mailbox "down" well
      installation refl refl refl refl refl

-- The environment that the Helm chart makes (helm/templates/secret.yaml), as far as the program reads it.
abbrev chart : String → String
chart key =
    if key == "HIVEPULSE_DB_URL"
    then "postgres://db"
    else if key == "HIVEPULSE_JWT_SECRET"
    then "access"
    else if key == "HIVEPULSE_JWT_REFRESH_SECRET"
    then "refresh"
    else ""

abbrev quarter_hour : String → Result ℕ
quarter_hour s = if s == "15m" || s == "168h" then ok 900 else err (other "invalid duration")

abbrev port_of : String → ℤ
port_of s = if s == "587" then ℤ.pos 587 else ℤ.pos 0

load_config-is_ok_example :
    (is_ok (load_config chart quarter_hour port_of) ≡ (
      is_ok (quarter_hour (get_env chart "JWT_ACCESS_EXPIRY" "15m"))
      && is_ok (quarter_hour (get_env chart "JWT_REFRESH_EXPIRY" "168h"))
      && not (chart "DATABASE_URL" == "")
      && not (chart "JWT_ACCESS_SECRET" == "")
      && not (chart "JWT_REFRESH_SECRET" == "")))
    × (eqb_ℤ (smtp_port chart port_of) (ℤ.pos 0) ≡ false)
load_config-is_ok_example = load_config-is_ok chart quarter_hour port_of
