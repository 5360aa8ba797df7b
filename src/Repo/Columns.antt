-- ===== src/Repo/Columns.antt =====
-- What a column of PostgreSQL takes, by its type.
use hivepulse.Prelude.{
  ℕ, ◌^◌, zero, suc, String, Bool, not, ◌&&◌, ℤ, codes, any, all, drop, eqb, ltb,
}

-- TEXT has no character of code 0.
abbrev pub fits_text : String → Bool
fits_text s = not (any (λ c. eqb c 0) (codes s))

-- VARCHAR(n): n characters, and after them nothing but spaces, which are cut off.
abbrev pub fits_varchar : ℕ → String → Bool
fits_varchar n s = fits_text s && all (λ c. eqb c 32) (drop n (codes s))

abbrev pub shortened : ℕ → String → String
shortened zero s = ""
shortened (suc n) String.[] = ""
shortened (suc n) (String.◌∷◌ c s) = String.◌∷◌ c (shortened n s)

-- INTEGER: 32 bits with a sign.
abbrev pub fits_integer : ℤ → Bool
fits_integer (ℤ.pos n) = ltb n (2 ^ 31)
fits_integer (ℤ.negsuc n) = ltb n (2 ^ 31)
