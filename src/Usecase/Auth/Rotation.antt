-- ===== src/Usecase/Auth/Rotation.antt =====
-- A refresh token is used up by the refresh that it allows.
use hivepulse.Prelude.{String, ◌≡◌, ◌≢◌, refl, ap, true, false, ltb, Bool-cases, inl, inr, arith}
use hivepulse.Domain.{Result, ok, err, is_ok, unauthorized, User, RefreshToken}
use hivepulse.World.{World}
use hivepulse.Repo.Users
use hivepulse.Repo.Tokens
use hivepulse.Repo.Tokens.{Gone, find_by_hash-Gone, delete_by_hash-Gone, create-Gone}
use hivepulse.Usecase.Auth.{
  Secrets, refresh, refresh_found, refresh_for, rotate, issue_after, issue_refresh_token, new_token,
  generate_access_token,
}

module _ (k : Secrets) (raw : Result String) (hash : String) where
  -- The new token does not have the hash.
  abbrev pub Differs : Type 0
  Differs = (r : String) → raw ≡ ok r → k.hash_token r ≢ hash

  pub issued :
      (r : Result String) (id fp ip : String) (w : World)
      → ((s : String) → r ≡ ok s → k.hash_token s ≢ hash)
      → Gone hash w.db
      → Gone hash (issue_refresh_token k r id fp ip w).1.db
  unfolding issue_refresh_token
  issued (err e) id fp ip w other_one gone = gone
  issued (ok s) id fp ip w other_one gone =
      create-Gone hash (new_token k id fp ip s w.now) w (other_one s refl) gone

  issued_after :
      (a : Result String) (u : User) (fp ip : String) (w : World)
      → Differs
      → Gone hash w.db
      → Gone hash (issue_after k raw a u fp ip w).1.db
  issued_after (err e) u fp ip w other_one gone = gone
  issued_after (ok a) u fp ip w other_one gone = issued raw u.id fp ip w other_one gone

  rotated :
      (stored : RefreshToken) (u : User) (r : Result (Unit {0})) (w : World)
      → Differs
      → (is_ok r ≡ true → Gone hash w.db)
      → is_ok (rotate k raw stored u r w).0 ≡ true
      → Gone hash (rotate k raw stored u r w).1.db
  rotated stored u (err e) w other_one gone fine = cc
  rotated stored u (ok d) w other_one gone fine =
      issued_after (generate_access_token k u w.now) u stored.device_fp stored.ip w other_one
        (gone refl)

  refreshed_for :
      (stored : RefreshToken) (u : Result User) (w : World)
      → Differs
      → is_ok (refresh_for k raw stored u hash w).0 ≡ true
      → Gone hash (refresh_for k raw stored u hash w).1.db
  refreshed_for stored (err e) w other_one fine = cc
  refreshed_for stored (ok u) w other_one fine =
      rotated stored u (Tokens.delete_by_hash hash w).0 (Tokens.delete_by_hash hash w).1 other_one
        (delete_by_hash-Gone hash w) fine

  pub found :
      (stored : Result RefreshToken) (w : World)
      → Differs
      → is_ok (refresh_found k raw stored hash w).0 ≡ true
      → Gone hash (refresh_found k raw stored hash w).1.db
  found (err e) w other_one fine = cc
  found (ok t) w other_one fine = elim (Bool-cases (ltb t.expires_at w.now)) [
    | inl late ↦ ground arith
    | inr early ↦ ground (
      arith,
      refreshed_for t (Users.find_by_id t.user_id w).0 (Users.find_by_id t.user_id w).1 other_one,
    )
  ]

pub refused :
    (k : Secrets) (raw : Result String) (hash : String) (r : Result RefreshToken) (w : World)
    → is_ok r ≡ false
    → refresh_found k raw r hash w ≡ (err unauthorized, w)
refused k raw hash (err e) w gone = refl
refused k raw hash (ok t) w gone = cc

-- Once a refresh token has been exchanged, whatever is done about faults of the database and the next
-- random token, presenting it again is refused as unauthorized, provided that the new token has another
-- hash.
pub refresh_uses_up :
    (k : Secrets) (raw next : Result String) (token : String) (w : World)
    → ((r : String) → raw ≡ ok r → k.hash_token r ≢ k.hash_token token)
    → is_ok (refresh k raw token w).0 ≡ true
    → (refresh k next token (refresh k raw token w).1).0 ≡ err unauthorized
unfolding refresh
refresh_uses_up k raw next token w other_one fine =
    let hash = k.hash_token token in
    let w1 = (refresh k raw token w).1 in
    let gone =
      found k raw hash (Tokens.find_by_hash hash w).0 (Tokens.find_by_hash hash w).1 other_one
        fine in
    ap (λ r. r.0)
      (refused k next hash (Tokens.find_by_hash hash w1).0 (Tokens.find_by_hash hash w1).1
        (find_by_hash-Gone hash w1 gone))
