-- ===== src/Handler/Sessions.antt =====
-- internal/adapter/handler/auth_handler.go. A body is `none` if gin cannot parse it; its test of an e-mail
-- address is a parameter.
use Prim.Native.String.{count}
use hivepulse.Prelude.{
  ℕ, ◌/◌, String, ◌==◌, Bool, not, ◌||◌, Option, none, some, ltb, if◌then◌else◌,
}
use hivepulse.Domain.{Error, setup_completed, Result, ok, err, second, User}
use hivepulse.World.{State}
use hivepulse.Usecase.Auth.{Secrets, setup_required, setup, login, refresh, logout, me}
use hivepulse.Handler.Replies.{status_of, reply, always}

-- `AuthHandler.SetupStatus`
unfoldable pub setup_status : State (ℕ × Option Bool)
setup_status w = let (r, w1) = setup_required w in (reply (always 500) 200 (λ b. b) r, w1)

pub record SetupRequest : Type 0 where
  pub name : String
  pub email : String
  pub password : String

pub record LoginRequest : Type 0 where
  pub email : String
  pub password : String

abbrev setup_error : Error → ℕ
setup_error setup_completed = 403
setup_error _ = 500

-- The cookie "refresh_token" of an answer: left alone, set for a number of seconds, or cleared.
pub data Cookie : Type 0 where
  kept cleared : Cookie
  set : String → ℕ → Cookie

pub record SessionAnswer : Type 0 where
  pub status : ℕ
  pub access_token : Option String
  pub cookie : Cookie

abbrev refused : ℕ → SessionAnswer
refused status = record { status = status; access_token = none; cookie = kept }

-- `setRefreshCookie`, and the access token.
abbrev opened : ℕ → Result (String × String) → SessionAnswer
opened expiry (err e) = refused 401
opened expiry (ok (access, token)) = record {
  status = 200;
  access_token = some access;
  cookie = set token (expiry / second);
}

module _ (is_email : String → Bool) (k : Secrets) where
  abbrev setup_lacks : SetupRequest → Bool
  setup_lacks req = req.name == "" || not (is_email req.email) || ltb (count req.password) 8

  abbrev setup_bound : Option SetupRequest → State ℕ
  setup_bound none w = (400, w)
  setup_bound (some req) w =
      if setup_lacks req
      then (400, w)
      else (let (r, w1) = setup k req.name req.email req.password w in
          (status_of setup_error 201 r, w1))

  -- `AuthHandler.Setup`
  unfoldable pub setup_handler : Option SetupRequest → State ℕ
  setup_handler body = setup_bound body

  abbrev login_bound : Result String → Option LoginRequest → String → String → State SessionAnswer
  login_bound raw none agent ip w = (refused 400, w)
  login_bound raw (some req) agent ip w =
      if not (is_email req.email) || req.password == ""
      then (refused 400, w)
      else (let (r, w1) = login k raw req.email req.password agent ip w in
          (opened k.refresh_expiry r, w1))

  -- `AuthHandler.Login`, with the new random token, the User-Agent and the address of the client.
  unfoldable pub login_handler :
      Result String → Option LoginRequest → String → String → State SessionAnswer
  login_handler raw body agent ip = login_bound raw body agent ip

  -- `AuthHandler.Refresh`, with the new random token and the cookie of the request.
  unfoldable pub refresh_handler : Result String → Option String → State SessionAnswer
  refresh_handler raw none w = (refused 401, w)
  refresh_handler raw (some token) w =
      let (r, w1) = refresh k raw token w in (opened k.refresh_expiry r, w1)

  abbrev or_blank : Option String → String
  or_blank none = ""
  or_blank (some t) = t

  -- `AuthHandler.Logout`: what becomes of the token is not looked at.
  unfoldable pub logout_handler : Option String → State SessionAnswer
  logout_handler token w =
      let (r, w1) = logout k (or_blank token) w in
      (record { status = 204; access_token = none; cookie = cleared }, w1)

pub record MeResponse : Type 0 where
  pub id : String
  pub email : String
  pub name : String
  pub role : String

abbrev me_response : User → MeResponse
me_response u = record { id = u.id; email = u.email; name = u.name; role = u.role }

-- `AuthHandler.Me`, for the user of the token.
unfoldable pub me_handler : String → State (ℕ × Option MeResponse)
me_handler id w = let (r, w1) = me id w in (reply (always 401) 200 me_response r, w1)
