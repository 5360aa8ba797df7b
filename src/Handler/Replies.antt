-- ===== src/Handler/Replies.antt =====
-- The shapes that the handlers' answers share: `if err != nil { c.JSON(bad, …); return }; c.JSON(good, …)`.
use hivepulse.Prelude.{ℕ, Option, none, some, ℤ}
use hivepulse.Domain.{Error, Result, ok, err}

module _ {ℓ} {A : Type ℓ} where
  abbrev pub status_of : (Error → ℕ) → ℕ → Result A → ℕ
  status_of bad good (err e) = bad e
  status_of bad good (ok a) = good

  module _ {κ} {B : Type κ} where
    abbrev pub reply : (Error → ℕ) → ℕ → (A → B) → Result A → ℕ × Option B
    reply bad good show (err e) = (bad e, none)
    reply bad good show (ok a) = (good, some (show a))

-- One status for every error.
abbrev pub always : ℕ → Error → ℕ
always n e = n

-- A number in the query, with its default.
abbrev pub or_number : Option ℤ → ℕ → ℤ
or_number none n = ℤ.pos n
or_number (some i) n = i
