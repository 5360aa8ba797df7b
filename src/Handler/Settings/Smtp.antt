-- ===== src/Handler/Settings/Smtp.antt =====
-- What becomes of the SMTP settings and the time zone that an administrator saves.
use hivepulse.Prelude.{
  String, ◌==◌, ◌≡◌, ◌≢◌, refl, sym, true, false, some, [], ℤ, ltb_ℤ, eqb_ℤ, Bool-cases, inl, inr,
  arith, eq_iff, if◌then◌else◌,
}
use hivepulse.Domain.{ok, SmtpConfig}
use hivepulse.World.{World, execute, fetch, query_calm, fetch_calm}
use hivepulse.Handler.Settings.{or_env, get_smtp, completed, put_smtp, load_smtp}

shown_kept :
    (stored : String)
    → (if (if stored == "" then "" else "***") == "***"
        then stored
        else (if stored == "" then "" else "***"))
      ≡ stored
shown_kept stored = elim (Bool-cases (stored == "")) [
  | inl none_set ↦ rw none_set (sym ((eq_iff stored "").0 none_set))
  | inr set ↦ rw set refl
]

present : (stored env : String) → stored ≢ "" → or_env stored env ≡ stored
present stored env set = ground (arith, eq_iff stored "")

positive : (p : ℤ) → ltb_ℤ (ℤ.pos 0) p ≡ true → eqb_ℤ p (ℤ.pos 0) ≡ false
positive (ℤ.pos p) h = ground arith
positive (ℤ.negsuc p) h = refl

saves :
    (new : SmtpConfig) (w : World)
    → w.faults ≡ []
    → execute (λ d. record d { smtp = some new }) w
      ≡ (ok tt, record w { db = record w.db { smtp = some new } })
saves new w calm = query_calm {0} (λ d. (ok tt, record d { smtp = some new })) w calm

loads : (w : World) → w.faults ≡ [] → fetch (λ d. ok d.smtp) w ≡ (ok w.db.smtp, w)
loads w calm = fetch_calm (λ d. ok d.smtp) w calm

-- The configuration that the form shows, with its password masked, can be sent back: if its port is not
-- 0 and the database works, the answer is 200 and nothing of the configuration changes.
pub masked_smtp_returns :
    (cfg : SmtpConfig) (w : World)
    → w.faults ≡ []
    → eqb_ℤ cfg.port (ℤ.pos 0) ≡ false
    → (put_smtp (some (get_smtp cfg).1) cfg w).0 ≡ (200, cfg)
unfolding put_smtp get_smtp
masked_smtp_returns cfg w calm port =
    rw (saves (completed cfg (get_smtp cfg).1) w calm, port, shown_kept cfg.password) refl

-- Saved settings outlive a restart: if the database works, no text is empty, the password that is stored
-- for a masked one included, and the port is positive, then the answer is 200, and what is loaded at the
-- next start, whatever the environment says, is the configuration that the request left.
pub smtp_outlives_restart :
    (req cfg env : SmtpConfig) (w : World)
    → w.faults ≡ []
    → req.host ≢ ""
    → req.user ≢ ""
    → (completed cfg req).password ≢ ""
    → req.from ≢ ""
    → ltb_ℤ (ℤ.pos 0) req.port ≡ true
    → let ((status, new), w1) = put_smtp (some req) cfg w in
      (status ≡ 200) × ((load_smtp env w1).0 ≡ new)
unfolding put_smtp load_smtp
smtp_outlives_restart req cfg env w calm host user password from port =
    let new : SmtpConfig = completed cfg req in
    rw (saves new w calm, loads (record w { db = record w.db { smtp = some new } }) calm)
      (
        refl,
        rw
            (
              positive req.port port,
              port,
              present req.host env.host host,
              present req.user env.user user,
              present new.password env.password password,
              present req.from env.from from,
            )
            refl,
      )

-- A cleared password does not stay so: if the database works and the request's password is empty, the
-- answer is 200 and the configuration has none, but the one loaded at the next start has the password of
-- the environment.
pub cleared_password_returns :
    (req cfg env : SmtpConfig) (w : World)
    → w.faults ≡ []
    → req.password ≡ ""
    → let ((status, new), w1) = put_smtp (some req) cfg w in
      (status ≡ 200) × (new.password ≡ "") × ((load_smtp env w1).0.password ≡ env.password)
unfolding put_smtp load_smtp
cleared_password_returns req cfg env w calm cleared =
    let new : SmtpConfig = completed cfg req in
    rw (saves new w calm, loads (record w { db = record w.db { smtp = some new } }) calm)
      (refl, rw cleared refl, rw cleared refl)
