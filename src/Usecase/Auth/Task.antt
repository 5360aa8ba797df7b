-- ===== src/Usecase/Auth/Task.antt =====
-- Setup and refresh as the sequences of their statements, for requests that overlap.
use hivepulse.Prelude.{
  ℕ, String, ◌≡◌, refl, Bool, true, false, ltb, if◌then◌else◌, Bool-cases, inl, inr,
}
use hivepulse.Domain.{Result, ok, err, unauthorized, setup_completed, Time, User, RefreshToken}
use hivepulse.World.{World}
use hivepulse.Tasks.{clock, Task, done, call, run}
use hivepulse.Repo.Users
use hivepulse.Repo.Tokens
use hivepulse.Usecase.Auth.{
  Secrets, admin, create_admin, setup_counted, setup, generate_access_token, issue_refresh_token,
  both, issue_after, rotate, refresh_for, refresh_found, refresh,
}

abbrev pub create_task : String → String → Result String → Task (Result (Unit {0}))
create_task name email (err e) = done (err e)
create_task name email (ok hash) = call (Users.create (admin name email hash)) done

abbrev pub counted_task : Secrets → String → String → String → Result ℕ → Task (Result (Unit {0}))
counted_task k name email password (err e) = done (err e)
counted_task k name email password (ok n) =
    if ltb 0 n
    then done (err setup_completed)
    else create_task name email (k.hash_password password)

-- `AuthUsecase.Setup`, statement by statement.
unfoldable pub setup_task : Secrets → String → String → String → Task (Result (Unit {0}))
setup_task k name email password = call Users.count (counted_task k name email password)

create_lem :
    (name email : String) (r : Result String) (w : World)
    → run (create_task name email r) w ≡ create_admin name email r w
unfolding run
create_lem name email (err e) w = refl
create_lem name email (ok hash) w = refl

counted_lem :
    (k : Secrets) (name email password : String) (r : Result ℕ) (w : World)
    → run (counted_task k name email password r) w ≡ setup_counted k name email password r w
unfolding run
counted_lem k name email password (err e) w = refl
counted_lem k name email password (ok n) w = elim (Bool-cases (ltb 0 n)) [
  | inl some_users ↦ rw some_users refl
  | inr none_yet ↦ rw none_yet (create_lem name email (k.hash_password password) w)
]

pub setup_task-run :
    (k : Secrets) (name email password : String) (w : World)
    → run (setup_task k name email password) w ≡ setup k name email password w
unfolding run setup_task setup
setup_task-run k name email password w =
    counted_lem k name email password (Users.count w).0 (Users.count w).1

abbrev pub TokensTask : Type 1
TokensTask = Task (Result (String × String))

abbrev pub issued_task :
    Secrets → Result String → User → String → String → Result String → TokensTask
issued_task k raw u fp ip (err e) = done (err e)
issued_task k raw u fp ip (ok access) =
    call (issue_refresh_token k raw u.id fp ip) λ r. done (both access r)

abbrev pub gone_task :
    Secrets → Result String → RefreshToken → User → Result (Unit {0}) → TokensTask
gone_task k raw stored u (err e) = done (err e)
gone_task k raw stored u (ok d) =
    call clock λ now. issued_task k raw u stored.device_fp stored.ip (generate_access_token k u now)

abbrev pub owner_task : Secrets → Result String → RefreshToken → String → Result User → TokensTask
owner_task k raw stored hash (err e) = done (err unauthorized)
owner_task k raw stored hash (ok u) = call (Tokens.delete_by_hash hash) (gone_task k raw stored u)

abbrev pub unexpired_task : Secrets → Result String → RefreshToken → String → Time → TokensTask
unexpired_task k raw stored hash now =
    if ltb stored.expires_at now
    then done (err unauthorized)
    else call (Users.find_by_id stored.user_id) (owner_task k raw stored hash)

abbrev pub stored_task : Secrets → Result String → String → Result RefreshToken → TokensTask
stored_task k raw hash (err e) = done (err unauthorized)
stored_task k raw hash (ok stored) = call clock (unexpired_task k raw stored hash)

-- `AuthUsecase.Refresh`, statement by statement.
unfoldable pub refresh_task : Secrets → Result String → String → TokensTask
refresh_task k raw token =
    call (Tokens.find_by_hash (k.hash_token token)) (stored_task k raw (k.hash_token token))

issued_lem :
    (k : Secrets) (raw : Result String) (u : User) (fp ip : String) (a : Result String) (w : World)
    → run (issued_task k raw u fp ip a) w ≡ issue_after k raw a u fp ip w
unfolding run
issued_lem k raw u fp ip (err e) w = refl
issued_lem k raw u fp ip (ok access) w = refl

gone_lem :
    (k : Secrets) (raw : Result String) (t : RefreshToken) (u : User) (r : Result (Unit {0}))
    (w : World)
    → run (gone_task k raw t u r) w ≡ rotate k raw t u r w
unfolding run
gone_lem k raw t u (err e) w = refl
gone_lem k raw t u (ok d) w =
    issued_lem k raw u t.device_fp t.ip (generate_access_token k u w.now) w

pub owner_lem :
    (k : Secrets) (raw : Result String) (t : RefreshToken) (hash : String) (r : Result User)
    (w : World)
    → run (owner_task k raw t hash r) w ≡ refresh_for k raw t r hash w
unfolding run
owner_lem k raw t hash (err e) w = refl
owner_lem k raw t hash (ok u) w =
    gone_lem k raw t u (Tokens.delete_by_hash hash w).0 (Tokens.delete_by_hash hash w).1

unexpired_lem :
    (late : Bool) (t : Task (Result (String × String))) (w : World)
    {o : Result (String × String) × World}
    → run t w ≡ o
    → run (if late then done (err unauthorized) else t) w
      ≡ (if late then (err unauthorized, w) else o)
unfolding run
unexpired_lem true t w e = refl
unexpired_lem false t w e = e

pub stored_lem :
    (k : Secrets) (raw : Result String) (hash : String) (r : Result RefreshToken) (w : World)
    → run (stored_task k raw hash r) w ≡ refresh_found k raw r hash w
unfolding run
stored_lem k raw hash (err e) w = refl
stored_lem k raw hash (ok t) w =
    unexpired_lem (ltb t.expires_at w.now)
      (call (Users.find_by_id t.user_id) (owner_task k raw t hash)) w
      (owner_lem k raw t hash (Users.find_by_id t.user_id w).0 (Users.find_by_id t.user_id w).1)

-- Statement by statement, a refresh that runs alone does what `refresh` says.
pub refresh_task-run :
    (k : Secrets) (raw : Result String) (token : String) (w : World)
    → run (refresh_task k raw token) w ≡ refresh k raw token w
unfolding run refresh_task refresh
refresh_task-run k raw token w =
    let hash = k.hash_token token in
    stored_lem k raw hash (Tokens.find_by_hash hash w).0 (Tokens.find_by_hash hash w).1
