-- ===== src/Program/Unsent.antt =====
-- E-mail without a server: the dispatcher of main.go, and what is written down of a notification.
use hivepulse.Prelude.{String, ◌≡◌, refl, ◌∙◌, true, Option, none, [], ◌∷◌, ◌++◌}
use hivepulse.Domain.{ok, Time, Monitor, NotificationChannel, SmtpConfig, channel_email}
use hivepulse.World.{World}
use hivepulse.Repo.Logs.{known_event}
use hivepulse.Repo.Notifications.{has_channel}
use hivepulse.Service.Senders.{dispatch, email_send}
use hivepulse.Usecase.Notification.{Services, deliver, delivery}
use hivepulse.Usecase.Schedule.{LocalTime}
use hivepulse.Usecase.Notification.Sending.{row_of, deliver_lem}
use hivepulse.Program.{Outside, dispatcher}

-- The zones that `time.LoadLocation` knows, and the stored one.
pub record Zones : Type 0 where
  pub load_location : String → Option (Time → LocalTime)
  pub timezone : Option String

-- What main.go gives to the usecase of notifications, at one time.
abbrev pub services : Outside → SmtpConfig → Time → Zones → Services
services o cfg now zones = record {
  send = λ attempt. dispatcher o cfg now;
  load_location = zones.load_location;
  timezone = zones.timezone;
}

sends_nothing :
    (o : Outside) (cfg : SmtpConfig) (now : Time) (ch : NotificationChannel) (event : String)
    (m : Monitor)
    → cfg.host ≡ ""
    → ch.kind ≡ channel_email
    → dispatcher o cfg now ch event m ≡ none
unfolding dispatcher dispatch email_send
sends_nothing o cfg now ch event m no_host mail = rw (no_host, mail) refl

-- Without an SMTP server, and without faults of the database, one of the three events, told to an e-mail channel in
-- the table, is written down as sent, at the first attempt, whatever net/smtp would have answered: the mail
-- is given to nobody.
pub unsent_mail_is_logged_sent :
    (o : Outside) (cfg : SmtpConfig) (now : Time) (zones : Zones) (id : String)
    (ch : NotificationChannel) (event : String) (m : Monitor) (w : World)
    → cfg.host ≡ ""
    → ch.kind ≡ channel_email
    → w.faults ≡ []
    → has_channel w.db ch.id ≡ true
    → known_event event ≡ true
    → deliver (services o cfg now zones) id ch event (ok m) w ≡ record w {
      db = record w.db { logs = w.db.logs ++ row_of id ch event w.now none ∷ [] };
      outbox = w.outbox ++ delivery ch event m none ∷ [];
    }
unsent_mail_is_logged_sent o cfg now zones id ch event m w no_host mail calm here told =
    let silent = sends_nothing o cfg now ch event m no_host mail in
    deliver_lem (services o cfg now zones) id ch event m w calm here told ∙ simp silent
