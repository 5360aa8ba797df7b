-- ===== src/Usecase/Auth/Races.antt =====
-- Requests on sessions and accounts that overlap.
use hivepulse.Prelude.{
  ◌+◌, ◌&&◌, eq_refl, any-find, any-imp, String, ◌==◌, eq_iff, ◌≡◌, ◌≢◌, refl, sym, ap, ◌∙◌, true,
  false, not, some, List, [], ◌∷◌, ◌++◌, any, find, select, length, ltb, any-select, any-append,
  none, arith,
}
use hivepulse.Domain.{ok, User, RefreshToken, role_admin}
use hivepulse.World.{Db, World, first_id, later_ids}
use hivepulse.Tasks.{done, run, Leads, both_start}
use hivepulse.Repo.Users
use hivepulse.Repo.Users.{has_user}
use hivepulse.Repo.Tokens
use hivepulse.Repo.Tokens.{has_hash, unfound}
use hivepulse.Usecase.Auth.{
  Secrets, admin, generate_access_token, issue_refresh_token, new_token, refresh_for,
}
use hivepulse.Usecase.Auth.Task.{setup_task, counted_task, refresh_task, stored_task, stored_lem}

-- Setup

abbrev with_admin : String → String → String → World → World
with_admin name email hash w = record w {
  db = record w.db {
    users =
        w.db.users
        ++ record (admin name email hash) {
          id = first_id w.fresh;
          created_at = w.now;
          updated_at = w.now;
        }
          ∷ [];
  };
  fresh = later_ids w.fresh;
}

counts : (w : World) → w.faults ≡ [] → w.db.users ≡ [] → Users.count w ≡ (ok 0, w)
unfolding Users.count
counts w calm nobody = ground arith

goes_in :
    (k : Secrets) (name email password hash : String) (w : World)
    → w.faults ≡ []
    → k.hash_password password ≡ ok hash
    → any (λ u. u.email == email) w.db.users ≡ false
    → run (counted_task k name email password (ok 0)) w ≡ (ok tt, with_admin name email hash w)
unfolding run Users.create
goes_in k name email password hash w calm hashed new = rw hashed (ground arith)

-- Two setups that overlap both succeed, in the order in which both count the users before either account
-- is stored: there are two administrators then. There was no user before, the two emails differ, bcrypt
-- takes both passwords, and the database has no faults.
pub setup_twice :
    (k : Secrets) (name email password hash name' email' password' hash' : String) (w : World)
    → w.faults ≡ []
    → w.db.users ≡ []
    → email ≢ email'
    → k.hash_password password ≡ ok hash
    → k.hash_password password' ≡ ok hash'
    → (v : World) × Leads
        (setup_task k name email password ∷ setup_task k name' email' password' ∷ [])
        w
        (done (ok tt) ∷ done (ok tt) ∷ [])
        v
      × (length (select (λ u. u.role == role_admin) v.db.users) ≡ 2)
unfolding setup_task
setup_twice k name email password hash name' email' password' hash' w calm nobody differ hashed
      hashed' =
    let v1 : World = with_admin name email hash w in
    let v : World = with_admin name' email' hash' v1 in
    let new : any (λ u. u.email == email) w.db.users ≡ false = ground arith in
    let new' : any (λ u. u.email == email') v1.db.users ≡ false =
      ground (arith, eq_iff email email') in
    (
      v,
      both_start Users.count (counted_task k name email password) Users.count
          (counted_task k name' email' password') w (counts w calm nobody) (counts w calm nobody)
          (goes_in k name email password hash w calm hashed new)
          (goes_in k name' email' password' hash' v1 calm hashed' new'),
      ground arith,
    )

-- Refresh

abbrev rotated_db : Secrets → RefreshToken → User → String → String → World → Db
rotated_db k stored u hash r w = record w.db {
  tokens =
      select (λ t. not (has_hash hash t)) w.db.tokens
      ++ record (new_token k u.id stored.device_fp stored.ip r w.now) {
        id = first_id w.fresh;
        created_at = w.now;
      }
        ∷ [];
}

abbrev with_rotated : Secrets → RefreshToken → User → String → String → World → World
with_rotated k stored u hash r w = record w {
  db = rotated_db k stored u hash r w;
  fresh = later_ids w.fresh;
}

misses :
    (hash : String) (t : RefreshToken) (l : List RefreshToken)
    → any (has_hash hash) l ≡ false
    → t.token_hash ≢ hash
    → any (has_hash hash) (l ++ t ∷ []) ≡ false
misses hash t l h other =
    ground (arith, any-append (has_hash hash) l (t ∷ []), eq_iff t.token_hash hash)

ends_with_it :
    (hash : String) (t : RefreshToken) (l : List RefreshToken)
    → t.token_hash ≡ hash
    → any (has_hash hash) (l ++ t ∷ []) ≡ true
ends_with_it hash t l same =
    ground (arith, any-append (has_hash hash) l (t ∷ []), eq_iff t.token_hash hash)

-- A DELETE of another hash leaves it.
spared :
    (hash other : String) (l : List RefreshToken)
    → hash ≢ other
    → any (has_hash hash) l ≡ true
    → any (has_hash hash) (select (λ t. not (has_hash other t)) l) ≡ true
spared hash other [] differ h = h
spared hash other (t ∷ l) differ h =
    ground (arith, spared hash other l differ, eq_iff t.token_hash hash, eq_iff t.token_hash other)

exchange :
    (k : Secrets) (stored : RefreshToken) (u : User) (hash r access : String) (w : World)
    → w.faults ≡ []
    → has_user w.db u.id ≡ true
    → k.sign u.id u.role (w.now + k.access_expiry) ≡ ok access
    → any (has_hash (k.hash_token r)) w.db.tokens ≡ false
    → refresh_for k (ok r) stored (ok u) hash w ≡ (ok (access, r), with_rotated k stored u hash r w)
unfolding generate_access_token issue_refresh_token Tokens.create Tokens.delete_by_hash
exchange k stored u hash r access w calm known signed new =
    let left =
      any-select (λ t. not (has_hash hash t)) (has_hash (k.hash_token r)) w.db.tokens new in
    rw (calm, signed, left) (ground arith)

looked_up :
    (hash : String) (stored : RefreshToken) (w : World)
    → w.faults ≡ []
    → find (has_hash hash) w.db.tokens ≡ some stored
    → Tokens.find_by_hash hash w ≡ (ok stored, w)
unfolding Tokens.find_by_hash
looked_up hash stored w calm found = ground arith

owner_found :
    (id : String) (u : User) (w : World)
    → w.faults ≡ []
    → find (λ x. x.id == id) w.db.users ≡ some u
    → Users.find_by_id id w ≡ (ok u, w)
unfolding Users.find_by_id
owner_found id u w calm owner = ground arith

-- From the row of the token on.
passes :
    (k : Secrets) (stored : RefreshToken) (u : User) (hash r access : String) (w : World)
    → w.faults ≡ []
    → ltb stored.expires_at w.now ≡ false
    → find (λ x. x.id == stored.user_id) w.db.users ≡ some u
    → k.sign u.id u.role (w.now + k.access_expiry) ≡ ok access
    → any (has_hash (k.hash_token r)) w.db.tokens ≡ false
    → run (stored_task k (ok r) hash (ok stored)) w
      ≡ (ok (access, r), with_rotated k stored u hash r w)
passes k stored u hash r access w calm early owner signed new =
    let known : has_user w.db u.id ≡ true =
      any-imp (λ x. (x.id == stored.user_id) && (x.id == u.id)) (λ x. x.id == u.id)
        (λ x h. ground arith) w.db.users
        (any-find (λ x. x.id == stored.user_id) (λ x. x.id == u.id) u w.db.users owner
          (eq_refl u.id)) in
    stored_lem k (ok r) hash (ok stored) w
    ∙ rw early (
        ap (λ p. refresh_for k (ok r) stored p.0 hash p.1)
          (owner_found stored.user_id u w calm owner)
        ∙ exchange k stored u hash r access w calm known signed new)

-- One refresh token is exchanged twice by two refreshes that overlap, in the order in which both look it
-- up before either deletes it: both succeed, and both new tokens are stored. The token is stored and not
-- expired, its user is stored and can be signed for, the two random tokens have hashes of their own, and
-- the database has no faults.
pub refresh_twice :
    (k : Secrets) (token r r' access : String) (stored : RefreshToken) (u : User) (w : World)
    → w.faults ≡ []
    → find (has_hash (k.hash_token token)) w.db.tokens ≡ some stored
    → ltb stored.expires_at w.now ≡ false
    → find (λ x. x.id == stored.user_id) w.db.users ≡ some u
    → k.sign u.id u.role (w.now + k.access_expiry) ≡ ok access
    → any (has_hash (k.hash_token r)) w.db.tokens ≡ false
    → any (has_hash (k.hash_token r')) w.db.tokens ≡ false
    → k.hash_token r ≢ k.hash_token r'
    → (v : World) × Leads
        (refresh_task k (ok r) token ∷ refresh_task k (ok r') token ∷ [])
        w
        (done (ok (access, r)) ∷ done (ok (access, r')) ∷ [])
        v
      × (any (has_hash (k.hash_token r)) v.db.tokens ≡ true)
      × (any (has_hash (k.hash_token r')) v.db.tokens ≡ true)
unfolding refresh_task
refresh_twice k token r r' access stored u w calm there early owner signed new new' differ =
    let hash = k.hash_token token in
    let v1 : World = with_rotated k stored u hash r w in
    let v : World = with_rotated k stored u hash r' v1 in
    let left' =
      any-select (λ t. not (has_hash hash t)) (has_hash (k.hash_token r')) w.db.tokens new' in
    let first = looked_up hash stored w calm there in
    let apart : k.hash_token r ≢ hash = λ same.
      let nowhere = unfound hash w.db.tokens (rw (← same) new) in
      let clash : none ≡ some stored = sym nowhere ∙ there in cc in
    let row : RefreshToken = record (new_token k u.id stored.device_fp stored.ip r w.now) {
      id = first_id w.fresh;
      created_at = w.now;
    } in
    let kept =
      ends_with_it (k.hash_token r) row (select (λ t. not (has_hash hash t)) w.db.tokens) refl in
    (
      v,
      both_start (Tokens.find_by_hash hash) (stored_task k (ok r) hash) (Tokens.find_by_hash hash)
          (stored_task k (ok r') hash) w first first
          (passes k stored u hash r access w calm early owner signed new)
          (passes k stored u hash r' access v1 calm early owner signed (
            misses (k.hash_token r') row (select (λ t. not (has_hash hash t)) w.db.tokens) left'
              differ)),
      rw any-append (ground (arith, spared (k.hash_token r) hash v1.db.tokens apart kept)),
      ends_with_it (k.hash_token r') _ (select (λ t. not (has_hash hash t)) v1.db.tokens) refl,
    )
