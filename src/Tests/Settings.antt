-- ===== src/Tests/Settings.antt =====
-- SMTP settings that are shown, sent back, saved and loaded.
use hivepulse.Prelude.{String, ◌≡◌, ◌≢◌, refl, some, eq_iff, arith, ℤ}
use hivepulse.Domain.{SmtpConfig}
use hivepulse.Handler.Settings.{get_smtp, put_smtp, load_smtp}
use hivepulse.Handler.Settings.Smtp.{
  masked_smtp_returns, smtp_outlives_restart, cleared_password_returns,
}
use hivepulse.Tests.Data.{world}

abbrev mail_server : SmtpConfig
mail_server = record {
  host = "mail";
  port = ℤ.pos 25;
  user = "ops";
  password = "pw";
  from = "ops@b.c";
}

abbrev of_env : SmtpConfig
of_env = record { host = ""; port = ℤ.pos 587; user = ""; password = "env"; from = "" }

masked_smtp_returns_example :
    (put_smtp (some (get_smtp mail_server).1) mail_server world).0 ≡ (200, mail_server)
masked_smtp_returns_example = masked_smtp_returns mail_server world refl refl

given : (t : String) → (t ≡ "mail") → t ≢ ""
given t e h = ground (arith, eq_iff "mail" "")

abbrev all_mail : SmtpConfig
all_mail = record {
  host = "mail";
  port = ℤ.pos 25;
  user = "mail";
  password = "mail";
  from = "mail";
}

smtp_outlives_restart_example :
    let ((status, new), w1) = put_smtp (some all_mail) of_env world in
    (status ≡ 200) × ((load_smtp of_env w1).0 ≡ new)
smtp_outlives_restart_example =
    smtp_outlives_restart all_mail of_env of_env world refl (given "mail" refl) (given "mail" refl)
      (given "mail" refl) (given "mail" refl) refl

abbrev no_password : SmtpConfig
no_password = record mail_server { password = "" }

cleared_password_returns_example :
    let ((status, new), w1) = put_smtp (some no_password) of_env world in
    (status ≡ 200) × (new.password ≡ "") × ((load_smtp of_env w1).0.password ≡ of_env.password)
cleared_password_returns_example =
    cleared_password_returns no_password of_env of_env world refl refl
