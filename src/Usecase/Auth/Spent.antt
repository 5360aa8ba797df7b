-- ===== src/Usecase/Auth/Spent.antt =====
-- A refresh token that has been exchanged stays spent, whatever refreshes run at the same time afterwards.
use hivepulse.Prelude.{
  ℕ, String, ◌≡◌, ap, ◌∙◌, Bool, true, false, not, List, [], ◌∷◌, map, any, All, find, ◌==◌, ltb,
  any-select, inl, inr, if◌then◌else◌,
}
use hivepulse.Domain.{Result, ok, err, is_ok, unauthorized, User, RefreshToken}
use hivepulse.World.{World, fetch-db, query-cases}
use hivepulse.Tasks.{done, call, Keeps, weave, weave-Keeps}
use hivepulse.Repo.Users
use hivepulse.Repo.Monitors.{found_or}
use hivepulse.Repo.Tokens
use hivepulse.Repo.Tokens.{has_hash, drop_hash, Gone, find_by_hash-Gone}
use hivepulse.Usecase.Auth.{Secrets, refresh, generate_access_token}
use hivepulse.Usecase.Auth.Rotation.{Differs, issued, found, refused}
use hivepulse.Usecase.Auth.Task.{
  TokensTask, refresh_task, stored_task, owner_task, gone_task, issued_task,
}

-- Requests that refresh tokens, each with its random token, and what they do.
abbrev pub refreshes : Secrets → List (Result String × String) → List TokensTask
refreshes k requests = map (λ (raw, token). refresh_task k raw token) requests

module _ (k : Secrets) (hash : String) where
  abbrev Spent : World → Type 0
  Spent w = Gone hash w.db

  same-Spent : (w v : World) → v.db ≡ w.db → Spent w → Spent v
  same-Spent w v e gone = ap (λ d. any (has_hash hash) d.tokens) e ∙ gone

  find-Spent : (h : String) (w : World) → Spent w → Spent (Tokens.find_by_hash h w).1
  unfolding Tokens.find_by_hash
  find-Spent h w =
      same-Spent w (Tokens.find_by_hash h w).1
        (fetch-db (λ d. found_or (find (has_hash h) d.tokens)) w)

  owner-Spent : (id : String) (w : World) → Spent w → Spent (Users.find_by_id id w).1
  unfolding Users.find_by_id
  owner-Spent id w =
      same-Spent w (Users.find_by_id id w).1
        (fetch-db (λ d. found_or (find (λ u. u.id == id) d.users)) w)

  delete-Spent : (h : String) (w : World) → Spent w → Spent (Tokens.delete_by_hash h w).1
  unfolding Tokens.delete_by_hash
  delete-Spent h w gone = elim (query-cases {0} (λ d. (ok tt, drop_hash h d)) w) [
    | inl (m, failed, same) ↦ same-Spent w (Tokens.delete_by_hash h w).1 same gone
    | inr (ran, same) ↦
        ap (λ d. any (has_hash hash) d.tokens) same
        ∙ any-select (λ t. not (has_hash h t)) (has_hash hash) w.db.tokens gone
  ]

  module _ (raw : Result String) (other_one : Differs k raw hash) where
    issued-Keeps :
        (u : User) (fp ip : String) (r : Result String) → Keeps Spent (issued_task k raw u fp ip r)
    issued-Keeps u fp ip (err e) = tt
    issued-Keeps u fp ip (ok a) =
        (λ w gone. issued k raw hash raw u.id fp ip w other_one gone, λ b. tt)

    gone-Keeps :
        (t : RefreshToken) (u : User) (r : Result (Unit {0})) → Keeps Spent (gone_task k raw t u r)
    gone-Keeps t u (err e) = tt
    gone-Keeps t u (ok d) =
        (λ w gone. gone, λ now. issued-Keeps u t.device_fp t.ip (generate_access_token k u now))

    owner-Keeps :
        (t : RefreshToken) (h : String) (r : Result User) → Keeps Spent (owner_task k raw t h r)
    owner-Keeps t h (err e) = tt
    owner-Keeps t h (ok u) = (delete-Spent h, gone-Keeps t u)

    late-Keeps :
        (late : Bool) (t : RefreshToken) (h : String)
        → Keeps Spent (
            if late
            then done (err unauthorized)
            else call (Users.find_by_id t.user_id) (owner_task k raw t h))
    late-Keeps true t h = tt
    late-Keeps false t h = (owner-Spent t.user_id, owner-Keeps t h)

    stored-Keeps : (h : String) (r : Result RefreshToken) → Keeps Spent (stored_task k raw h r)
    stored-Keeps h (err e) = tt
    stored-Keeps h (ok t) = (λ w gone. gone, λ now. late-Keeps (ltb t.expires_at now) t h)

    refresh-Keeps : (token : String) → Keeps Spent (refresh_task k raw token)
    unfolding refresh_task
    refresh-Keeps token = (find-Spent (k.hash_token token), stored-Keeps (k.hash_token token))

  -- None of the random tokens has the hash.
  abbrev pub AllDiffer : List (Result String × String) → Type 0
  AllDiffer [] = Unit
  AllDiffer ((raw, token) ∷ requests) = Differs k raw hash × AllDiffer requests

  refreshes-Keep :
      (requests : List (Result String × String))
      → AllDiffer requests
      → All (Keeps Spent) (refreshes k requests)
  refreshes-Keep [] differ = tt
  refreshes-Keep ((raw, token) ∷ requests) (other_one, differ) =
      (refresh-Keeps raw other_one token, refreshes-Keep requests differ)

-- Once a refresh token has been exchanged, and whatever refreshes of whatever tokens run afterwards, in
-- whatever order of their statements and with whatever faults of the database, presenting it again is
-- refused as unauthorized, provided that no new token has its hash.
pub spent_stays_spent :
    (k : Secrets) (raw next : Result String) (token : String)
    (requests : List (Result String × String)) (order : List ℕ) (w : World)
    → Differs k raw (k.hash_token token)
    → AllDiffer k (k.hash_token token) requests
    → is_ok (refresh k raw token w).0 ≡ true
    → (refresh k next token (weave order (refreshes k requests) (refresh k raw token w).1).1).0
      ≡ err unauthorized
unfolding refresh
spent_stays_spent k raw next token requests order w other_one differ fine =
    let hash = k.hash_token token in
    let w1 : World = (refresh k raw token w).1 in
    let v : World = (weave order (refreshes k requests) w1).1 in
    let gone =
      found k raw hash (Tokens.find_by_hash hash w).0 (Tokens.find_by_hash hash w).1 other_one
        fine in
    let still : Gone hash v.db =
      weave-Keeps (λ x. Gone hash x.db) order (refreshes k requests) w1
        (refreshes-Keep k hash requests differ) gone in
    ap (λ r. r.0)
      (refused k next hash (Tokens.find_by_hash hash v).0 (Tokens.find_by_hash hash v).1
        (find_by_hash-Gone hash v still))
