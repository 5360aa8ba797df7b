-- ===== src/Domain/Errors.antt =====
-- internal/domain/errors.go, and the type of a call that returns a value and an `error`.
use hivepulse.Prelude.{String, Bool, true, false, ◌≡◌, refl, ◌⊎◌, inl, inr}

-- The sentinel errors. `validation` is one that wraps `ErrValidation` with a message, and `other` is
-- any error that wraps none of them, such as one from the database driver.
pub data Error : Type 0 where
  not_found already_exists unauthorized setup_completed invalid_input : Error
  validation : String → Error
  other : String → Error

pub data Result {ℓ} (A : Type ℓ) : Type ℓ where
  ok : A → Result A
  err : Error → Result A

abbrev pub is_ok {ℓ} : {A : Type ℓ} → Result A → Bool
is_ok (ok a) = true
is_ok (err e) = false

pub Result-cases {ℓ} :
    {A : Type ℓ} (r : Result A) → ((e : Error) × (r ≡ err e)) ⊎ ((a : A) × (r ≡ ok a))
Result-cases (ok a) = inr (a, refl)
Result-cases (err e) = inl (e, refl)
