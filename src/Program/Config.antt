-- ===== src/Program/Config.antt =====
-- infrastructure/config.go: the configuration of the environment. A variable that is not set is "", as
-- `os.Getenv` gives it; `time.ParseDuration` and the number that `strconv.Atoi` returns are parameters.
use Prim.Native.String.{◌++◌}
use hivepulse.Prelude.{
  ℕ, String, ◌==◌, ◌≡◌, refl, false, ◌&&◌, not, ℤ, eqb_ℤ, Bool-cases, inl, inr, if◌then◌else◌,
}
use hivepulse.Domain.{Result, ok, err, is_ok, other, SmtpConfig}

-- `Config`; its five SMTP fields are a record of their own.
pub record Config : Type 0 where
  pub app_env : String
  pub api_port : String
  pub database_url : String
  pub jwt_access_secret : String
  pub jwt_refresh_secret : String
  pub jwt_access_expiry : ℕ
  pub jwt_refresh_expiry : ℕ
  pub cors_allowed_origins : String
  pub smtp : SmtpConfig

abbrev and_then {ℓ κ} : {A : Type ℓ} {B : Type κ} → Result A → (A → Result B) → Result B
and_then (err e) f = err e
and_then (ok a) f = f a

module _ (env : String → String) where
  -- `getEnv`
  unfoldable pub get_env : String → String → String
  get_env key fallback = if env key == "" then fallback else env key

  -- `mustEnv`: an error is the message with which `log.Fatalf` ends the program.
  unfoldable pub must_env : String → Result String
  must_env key =
      if env key == ""
      then err (other ("required environment variable not set: " ++ key))
      else ok (env key)

  -- The port, which is 587 instead of 0.
  unfoldable pub smtp_port : (String → ℤ) → ℤ
  unfolding get_env
  smtp_port atoi =
      let port = atoi (get_env "SMTP_PORT" "587") in
      if eqb_ℤ port (ℤ.pos 0) then ℤ.pos 587 else port

  abbrev smtp_of : (String → ℤ) → SmtpConfig
  smtp_of atoi = record {
    host = get_env "SMTP_HOST" "";
    port = smtp_port atoi;
    user = get_env "SMTP_USER" "";
    password = get_env "SMTP_PASSWORD" "";
    from = get_env "SMTP_FROM" "";
  }

  abbrev config_of : (String → ℤ) → ℕ → ℕ → String → String → String → Config
  config_of atoi access refresh database access_secret refresh_secret = record {
    app_env = get_env "APP_ENV" "development";
    api_port = get_env "API_PORT" "8080";
    database_url = database;
    jwt_access_secret = access_secret;
    jwt_refresh_secret = refresh_secret;
    jwt_access_expiry = access;
    jwt_refresh_expiry = refresh;
    cors_allowed_origins = get_env "CORS_ALLOWED_ORIGINS" "http://localhost:5173";
    smtp = smtp_of atoi;
  }

  module _ (parse_duration : String → Result ℕ) (atoi : String → ℤ) where
    -- `LoadConfig`
    unfoldable pub load_config : Result Config
    unfolding get_env must_env smtp_port
    load_config = and_then (parse_duration (get_env "JWT_ACCESS_EXPIRY" "15m")) λ access.
        and_then (parse_duration (get_env "JWT_REFRESH_EXPIRY" "168h")) λ refresh.
          and_then (must_env "DATABASE_URL") λ database.
            and_then (must_env "JWT_ACCESS_SECRET") λ access_secret.
              and_then (must_env "JWT_REFRESH_SECRET") λ refresh_secret.
                ok (config_of atoi access refresh database access_secret refresh_secret)

must_env-is_ok :
    (env : String → String) (key : String) → is_ok (must_env env key) ≡ not (env key == "")
unfolding must_env
must_env-is_ok env key = elim (Bool-cases (env key == "")) [
  | inl unset ↦ rw unset refl
  | inr set ↦ rw set refl
]

-- Five readings, of which the first that fails ends all.
all_read-is_ok :
    (f : ℕ → ℕ → String → String → String → Config) (a b : Result ℕ) (c d e : Result String)
    → is_ok (
        and_then a λ access.
          and_then b
            λ refresh. and_then c λ x. and_then d λ y. and_then e λ z. ok (f access refresh x y z))
      ≡ (is_ok a && is_ok b && is_ok c && is_ok d && is_ok e)
all_read-is_ok f (err u) b c d e = refl
all_read-is_ok f (ok a) (err u) c d e = refl
all_read-is_ok f (ok a) (ok b) (err u) d e = refl
all_read-is_ok f (ok a) (ok b) (ok c) (err u) e = refl
all_read-is_ok f (ok a) (ok b) (ok c) (ok d) (err u) = refl
all_read-is_ok f (ok a) (ok b) (ok c) (ok d) (ok e) = refl

-- The program starts with a configuration exactly when both expiries can be parsed, their defaults in place
-- of empty ones, and the address of the database and the two secrets are set; its SMTP port is never 0.
pub load_config-is_ok :
    (env : String → String) (parse_duration : String → Result ℕ) (atoi : String → ℤ)
    → (is_ok (load_config env parse_duration atoi) ≡ (
        is_ok (parse_duration (get_env env "JWT_ACCESS_EXPIRY" "15m"))
        && is_ok (parse_duration (get_env env "JWT_REFRESH_EXPIRY" "168h"))
        && not (env "DATABASE_URL" == "")
        && not (env "JWT_ACCESS_SECRET" == "")
        && not (env "JWT_REFRESH_SECRET" == "")))
      × (eqb_ℤ (smtp_port env atoi) (ℤ.pos 0) ≡ false)
unfolding load_config smtp_port
load_config-is_ok env parse_duration atoi = (
  rw
      (
        ← must_env-is_ok env "DATABASE_URL",
        ← must_env-is_ok env "JWT_ACCESS_SECRET",
        ← must_env-is_ok env "JWT_REFRESH_SECRET",
      )
      (all_read-is_ok (config_of env atoi) (parse_duration (get_env env "JWT_ACCESS_EXPIRY" "15m"))
        (parse_duration (get_env env "JWT_REFRESH_EXPIRY" "168h")) (must_env env "DATABASE_URL")
        (must_env env "JWT_ACCESS_SECRET") (must_env env "JWT_REFRESH_SECRET")),
  elim (Bool-cases (eqb_ℤ (atoi (get_env env "SMTP_PORT" "587")) (ℤ.pos 0))) [
    | inl none_given ↦ rw none_given refl
    | inr given ↦ rw given given
  ],
)
