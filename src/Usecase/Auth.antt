-- ===== src/Usecase/Auth.antt =====
-- internal/usecase/auth_usecase.go and user_usecase.go: the first account, sessions, and the accounts.
pub mod Rotation
pub mod Accounts
pub mod Task
pub mod Races
pub mod Spent
use hivepulse.Prelude.{
  ℕ, ◌+◌, String, ◌==◌, Bool, true, false, not, List, eqb, ltb, ℤ, if◌then◌else◌,
}
use hivepulse.Domain.{
  Error, Result, ok, err, unauthorized, setup_completed, validation, Time, User, RefreshToken,
  role_admin,
}
use hivepulse.World.{World, Action, pure}
use hivepulse.Repo.Users
use hivepulse.Repo.Tokens
use hivepulse.Usecase.Monitor.{clamp_page, clamp_limit}

-- The packages that the usecase calls: bcrypt, the JWT signer (subject, role, expiry), SHA-256, and the
-- two lifetimes that it is built with.
pub record Secrets : Type 0 where
  pub hash_password : String → Result String
  pub password_matches : String → String → Bool
  pub sign : String → String → Time → Result String
  pub hash_token : String → String
  pub access_expiry : ℕ
  pub refresh_expiry : ℕ

abbrev no_users : Result ℕ → Result Bool
no_users (err e) = err e
no_users (ok n) = ok (eqb n 0)

-- `AuthUsecase.SetupRequired`
unfoldable pub setup_required : Action Bool
setup_required w = let (n, w1) = Users.count w in (no_users n, w1)

abbrev pub admin : String → String → String → User
admin name email hash = record {
  id = "";
  email = email;
  name = name;
  password_hash = hash;
  role = role_admin;
  created_at = 0;
  updated_at = 0;
}

abbrev pub create_admin : String → String → Result String → Action (Unit {0})
create_admin name email (err e) w = (err e, w)
create_admin name email (ok hash) w = Users.create (admin name email hash) w

abbrev pub setup_counted : Secrets → String → String → String → Result ℕ → Action (Unit {0})
setup_counted k name email password (err e) w = (err e, w)
setup_counted k name email password (ok n) w =
    if ltb 0 n
    then (err setup_completed, w)
    else create_admin name email (k.hash_password password) w

-- `AuthUsecase.Setup`
unfoldable pub setup : Secrets → String → String → String → Action (Unit {0})
setup k name email password w =
    let (n, w1) = Users.count w in setup_counted k name email password n w1

-- `AuthUsecase.generateAccessToken`
unfoldable pub generate_access_token : Secrets → User → Time → Result String
generate_access_token k u now = k.sign u.id u.role (now + k.access_expiry)

abbrev pub new_token : Secrets → String → String → String → String → Time → RefreshToken
new_token k user_id device_fp ip raw now = record {
  id = "";
  user_id = user_id;
  token_hash = k.hash_token raw;
  device_fp = device_fp;
  ip = ip;
  expires_at = now + k.refresh_expiry;
  created_at = 0;
}

-- An error, or else this.
abbrev returning : Result (Unit {0}) → String → Result String
returning (err e) s = err e
returning (ok u) s = ok s

-- `AuthUsecase.issueRefreshToken`; `raw` is what `generateRandomToken` returns.
unfoldable pub issue_refresh_token :
    Secrets → Result String → String → String → String → Action String
issue_refresh_token k (err e) user_id device_fp ip w = (err e, w)
issue_refresh_token k (ok raw) user_id device_fp ip w =
    let (r, w1) = Tokens.create (new_token k user_id device_fp ip raw w.now) w in
    (returning r raw, w1)

abbrev both : String → Result String → Result (String × String)
both a (err e) = err e
both a (ok b) = ok (a, b)

-- The access token, then the refresh token.
abbrev pub issue_after :
    Secrets → Result String → Result String → User → String → String → Action (String × String)
issue_after k raw (err e) u device_fp ip w = (err e, w)
issue_after k raw (ok access) u device_fp ip w =
    let (r, w1) = issue_refresh_token k raw u.id device_fp ip w in (both access r, w1)

abbrev pub login_found :
    Secrets → Result String → String → String → String → Result User → Action (String × String)
login_found k raw password device_fp ip (err e) w = (err unauthorized, w)
login_found k raw password device_fp ip (ok u) w =
    if k.password_matches u.password_hash password
    then issue_after k raw (generate_access_token k u w.now) u device_fp ip w
    else (err unauthorized, w)

-- `AuthUsecase.Login`
unfoldable pub login :
    Secrets → Result String → String → String → String → String → Action (String × String)
login k raw email password device_fp ip w =
    let (found, w1) = Users.find_by_email email w in
    login_found k raw password device_fp ip found w1

abbrev pub rotate :
    Secrets → Result String → RefreshToken → User → Result (Unit {0}) → Action (String × String)
rotate k raw stored u (err e) w = (err e, w)
rotate k raw stored u (ok done) w =
    issue_after k raw (generate_access_token k u w.now) u stored.device_fp stored.ip w

abbrev pub refresh_for :
    Secrets → Result String → RefreshToken → Result User → String → Action (String × String)
refresh_for k raw stored (err e) hash w = (err unauthorized, w)
refresh_for k raw stored (ok u) hash w =
    let (gone, w1) = Tokens.delete_by_hash hash w in rotate k raw stored u gone w1

-- `FindByHash` returns no nil without an error.
abbrev pub refresh_found :
    Secrets → Result String → Result RefreshToken → String → Action (String × String)
refresh_found k raw (err e) hash w = (err unauthorized, w)
refresh_found k raw (ok stored) hash w =
    if ltb stored.expires_at w.now
    then (err unauthorized, w)
    else (let (u, w1) = Users.find_by_id stored.user_id w in refresh_for k raw stored u hash w1)

-- `AuthUsecase.Refresh`; `raw` is what `generateRandomToken` returns.
unfoldable pub refresh : Secrets → Result String → String → Action (String × String)
refresh k raw token w =
    let (stored, w1) = Tokens.find_by_hash (k.hash_token token) w in
    refresh_found k raw stored (k.hash_token token) w1

-- `AuthUsecase.Logout`
unfoldable pub logout : Secrets → String → Action (Unit {0})
logout k token = Tokens.delete_by_hash (k.hash_token token)

-- `AuthUsecase.Me`
unfoldable pub me : String → Action User
me = Users.find_by_id

-- `UserUsecase.ListUsers`
unfoldable pub list_users : ℤ → ℤ → Action (List User × ℕ)
list_users page limit = Users.list (clamp_page page) (clamp_limit limit)

-- `UserUsecase.UpdateRole`
unfoldable pub update_role : String → String → Action (Unit {0})
update_role = Users.update_role

-- `UserUsecase.DeleteUser`
unfoldable pub delete_user : String → String → Action (Unit {0})
delete_user target caller w =
    if target == caller then (err (validation "cannot delete self"), w) else Users.delete target w
