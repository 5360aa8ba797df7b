-- ===== src/Handler/Settings.antt =====
-- internal/adapter/handler/settings_handler.go. The configuration `h.cfg` that the handler changes is
-- passed along; a body is `none` if gin cannot parse it.
pub mod Smtp
use hivepulse.Prelude.{ℕ, String, ◌==◌, Bool, Option, none, some, ℤ, ltb_ℤ, eqb_ℤ, if◌then◌else◌}
use hivepulse.Domain.{Result, ok, err, GeneralSettings, SmtpConfig}
use hivepulse.World.{World, State, execute, fetch}
use hivepulse.Usecase.Settings

-- `SettingsHandler.GetSMTP`
unfoldable pub get_smtp : SmtpConfig → ℕ × SmtpConfig
get_smtp cfg = (200, record cfg { password = if cfg.password == "" then "" else "***" })

-- The request with the stored password for a masked one, and with the default port.
abbrev pub completed : SmtpConfig → SmtpConfig → SmtpConfig
completed cfg req = record req {
  password = if req.password == "***" then cfg.password else req.password;
  port = if eqb_ℤ req.port (ℤ.pos 0) then ℤ.pos 587 else req.port;
}

abbrev pub saved : SmtpConfig → SmtpConfig → Result (Unit {0}) → ℕ × SmtpConfig
saved new cfg (err e) = (500, cfg)
saved new cfg (ok u) = (200, new)

-- `SettingsHandler.PutSMTP`: the status, and the configuration afterwards.
unfoldable pub put_smtp : Option SmtpConfig → SmtpConfig → State (ℕ × SmtpConfig)
put_smtp none cfg w = ((400, cfg), w)
put_smtp (some req) cfg w =
    let (r, w1) = execute (λ d. record d { smtp = some (completed cfg req) }) w in
    (saved (completed cfg req) cfg r, w1)

abbrev pub or_env : String → String → String
or_env stored env = if stored == "" then env else stored

abbrev pub loaded : SmtpConfig → Result (Option SmtpConfig) → SmtpConfig
loaded env (err e) = env
loaded env (ok none) = env
loaded env (ok (some s)) = record {
  host = or_env s.host env.host;
  port = if ltb_ℤ (ℤ.pos 0) s.port then s.port else env.port;
  user = or_env s.user env.user;
  password = or_env s.password env.password;
  from = or_env s.from env.from;
}

-- `LoadSMTPFromDB`, which main.go calls at the start with the configuration of the environment.
unfoldable pub load_smtp : SmtpConfig → State SmtpConfig
load_smtp env w = let (r, w1) = fetch (λ d. ok d.smtp) w in (loaded env r, w1)

abbrev general_response : Result GeneralSettings → ℕ × Option GeneralSettings
general_response (err e) = (500, none)
general_response (ok s) = (200, some s)

-- `SettingsHandler.GetGeneral`
unfoldable pub get_general : State (ℕ × Option GeneralSettings)
get_general w = let (r, w1) = Settings.get_general w in (general_response r, w1)

abbrev put_status : Result (Unit {0}) → ℕ
put_status (err e) = 500
put_status (ok u) = 200

-- `SettingsHandler.PutGeneral`
unfoldable pub put_general : Option GeneralSettings → State ℕ
put_general none w = (400, w)
put_general (some s) w = let (r, w1) = Settings.save_general s w in (put_status r, w1)
