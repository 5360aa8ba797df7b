-- ===== src/Usecase/Auth/Accounts.antt =====
-- Who can get in, and who can be removed.
use hivepulse.Prelude.{
  ℕ, ◌≤◌, String, ◌==◌, eq_iff, ◌≡◌, refl, ap, ◌∙◌, Bool, true, false, not, ◌&&◌, Option, none,
  some, List, [], ◌∷◌, any, find, select, length, length-append, Bool-cases, inl, inr, ◌⊎◌, arith,
}
use hivepulse.Domain.{Result, ok, err, is_ok, User}
use hivepulse.World.{World, query-cases, first_id, later_ids}
use hivepulse.Repo.Monitors.{found_or}
use hivepulse.Repo.Users
use hivepulse.Repo.Users.{has_user, insert_user, remove_user}
use hivepulse.Usecase.Auth.{
  Secrets, setup, setup_counted, create_admin, admin, login, login_found, delete_user,
}

-- Setup

counted :
    (w : World) → (is_ok (Users.count w).0 ≡ false) ⊎ ((Users.count w).0 ≡ ok (length w.db.users))
unfolding Users.count
counted w = elim (query-cases (λ d. (ok (length d.users), d)) w) [
  | inl (m, failed, same) ↦ inl (ap is_ok failed)
  | inr (done, same) ↦ inr done
]

inserted :
    (u : User) (w : World)
    → is_ok (Users.create u w).0 ≡ true
    → 1 ≤ length (Users.create u w).1.db.users
unfolding Users.create
inserted u w fine =
    elim (query-cases {0} (insert_user u w.now (first_id w.fresh))
      (record w { fresh = later_ids w.fresh })) [
        | inl (m, failed, same) ↦ ground arith
        | inr (done, same) ↦ ground (
          arith,
          length-append w.db.users
              (record u { id = first_id w.fresh; created_at = w.now; updated_at = w.now } ∷ []),
        )
      ]

admitted :
    (name email : String) (hash : Result String) (w : World)
    → is_ok (create_admin name email hash w).0 ≡ true
    → 1 ≤ length (create_admin name email hash w).1.db.users
admitted name email (err e) w fine = cc
admitted name email (ok hash) w fine = inserted (admin name email hash) w fine

set_up :
    (k : Secrets) (name email password : String) (n : Result ℕ) (w : World)
    → is_ok (setup_counted k name email password n w).0 ≡ true
    → 1 ≤ length (setup_counted k name email password n w).1.db.users
set_up k name email password (err e) w fine = cc
set_up k name email password (ok n) w fine =
    ground (arith, admitted name email (k.hash_password password) w)

closed :
    (k : Secrets) (name email password : String) (n : Result ℕ) (w : World) (users : ℕ)
    → 1 ≤ users
    → (is_ok n ≡ false) ⊎ (n ≡ ok users)
    → is_ok (setup_counted k name email password n w).0 ≡ false
closed k name email password (err e) w users some_user r = refl
closed k name email password (ok n) w users some_user (inl e) = cc
closed k name email password (ok n) w users some_user (inr e) =
    rw (ap (λ r. (setup_counted k name email password r w).0) e) (ground arith)

-- Setup succeeds once: after a setup that succeeded, no further one does, whatever its name, email,
-- password and the faults of the database are.
setup_once :
    (k : Secrets) (name email password name' email' password' : String) (w : World)
    → is_ok (setup k name email password w).0 ≡ true
    → is_ok (setup k name' email' password' (setup k name email password w).1).0 ≡ false
unfolding setup
setup_once k name email password name' email' password' w fine =
    let w1 = (setup k name email password w).1 in
    closed k name' email' password' (Users.count w1).0 (Users.count w1).1 (length w1.db.users)
      (set_up k name email password (Users.count w).0 (Users.count w).1 fine) (counted w1)

-- Login

abbrev pub opens : Secrets → String → String → User → Bool
opens k email password u = u.email == email && k.password_matches u.password_hash password

found_or-ok : (u : User) (o : Option User) → ok u ≡ found_or o → o ≡ some u
found_or-ok u none e = cc
found_or-ok u (some x) e = cc

find-opens :
    (k : Secrets) (email password : String) (u : User) (l : List User)
    → find (λ x. x.email == email) l ≡ some u
    → k.password_matches u.password_hash password ≡ true
    → any (opens k email password) l ≡ true
find-opens k email password u [] h p = cc
find-opens k email password u (x ∷ l) h p = ground (arith, find-opens k email password u l)

-- With the user that was looked up.
passed :
    (k : Secrets) (raw : Result String) (email password fp ip : String) (r : Result User)
    (w : World) (l : List User)
    → (is_ok r ≡ false) ⊎ (r ≡ found_or (find (λ x. x.email == email) l))
    → is_ok (login_found k raw password fp ip r w).0 ≡ true
    → any (opens k email password) l ≡ true
passed k raw email password fp ip (err e) w l r fine = cc
passed k raw email password fp ip (ok u) w l (inl e) fine = cc
passed k raw email password fp ip (ok u) w l (inr e) fine =
    elim (Bool-cases (k.password_matches u.password_hash password)) [
      | inl right ↦
          find-opens k email password u l (found_or-ok u (find (λ x. x.email == email) l) e) right
      | inr wrong ↦ ground arith
    ]

looked_up :
    (email : String) (w : World)
    → (is_ok (Users.find_by_email email w).0 ≡ false)
      ⊎ ((Users.find_by_email email w).0 ≡ found_or (find (λ x. x.email == email) w.db.users))
unfolding Users.find_by_email
looked_up email w =
    elim (query-cases (λ d. (found_or (find (λ x. x.email == email) d.users), d)) w) [
      | inl (m, failed, same) ↦ inl (ap is_ok failed)
      | inr (done, same) ↦ inr done
    ]

-- A login succeeds only with the password of an account that has the email.
pub login_needs_password :
    (k : Secrets) (raw : Result String) (email password device_fp ip : String) (w : World)
    → is_ok (login k raw email password device_fp ip w).0 ≡ true
    → any (opens k email password) w.db.users ≡ true
unfolding login
login_needs_password k raw email password fp ip w fine =
    passed k raw email password fp ip (Users.find_by_email email w).0
      (Users.find_by_email email w).1 w.db.users (looked_up email w) fine

-- Deletion

kept :
    (target caller : String) (l : List User)
    → (target == caller) ≡ false
    → any (λ u. u.id == caller) l ≡ true
    → any (λ u. u.id == caller) (select (λ u. not (u.id == target)) l) ≡ true
kept target caller [] other_one h = cc
kept target caller (x ∷ l) other_one h =
    ground
      (arith, kept target caller l, eq_iff x.id caller, eq_iff x.id target, eq_iff target caller)

deleted :
    (target caller : String) (w : World)
    → (target == caller) ≡ false
    → has_user w.db caller ≡ true
    → has_user (Users.delete target w).1.db caller ≡ true
unfolding Users.delete
deleted target caller w other_one here = elim (query-cases {0} (remove_user target) w) [
  | inl (m, failed, same) ↦ ap (λ d. has_user d caller) same ∙ here
  | inr (done, same) ↦
      ap (λ d. has_user d caller) same
      ∙ ground (arith, kept target caller w.db.users other_one here)
]

-- Whoever asks to delete a user keeps their own account, whoever is to be deleted and whatever the
-- faults of the database are.
pub delete_user_keeps_caller :
    (target caller : String) (w : World)
    → has_user w.db caller ≡ true
    → has_user (delete_user target caller w).1.db caller ≡ true
unfolding delete_user Users.delete
delete_user_keeps_caller target caller w here = elim (Bool-cases (target == caller)) [
  | inl self ↦ ground arith
  | inr other_one ↦ ground (arith, deleted target caller w other_one here)
]
