-- ===== src/Usecase/Slug/Tidy.antt =====
-- The form of a slug.
use hivepulse.Prelude.{
  ℕ, ◌≡◌, refl, Bool, true, false, not, ◌&&◌, ◌||◌, List, [], ◌∷◌, ◌++◌, eqb, arith,
}
use hivepulse.Usecase.Slug.{
  dash, is_alphanumeric, replace_runs, trim_dashes_left, cons_trimmed, trim_dashes_right, or_status,
  generate_slug,
}

-- Letters and digits, with single dashes between them: no dash where the flag is set, which is at the
-- start and after a dash, and none at the end.
abbrev pub tidy : Bool → List ℕ → Bool
tidy after_dash [] = not after_dash
tidy after_dash (c ∷ s) =
    (is_alphanumeric c && tidy false s) || (eqb c dash && not after_dash && tidy true s)

-- The same, but the text may end in a dash.
abbrev open_end : Bool → List ℕ → Bool
open_end after_dash [] = true
open_end after_dash (c ∷ s) =
    (is_alphanumeric c && open_end false s) || (eqb c dash && not after_dash && open_end true s)

no_dash : (c : ℕ) → is_alphanumeric c ≡ true → eqb c dash ≡ false
no_dash c h = ground arith

replaced : (in_run : Bool) (s : List ℕ) → open_end in_run (replace_runs in_run s) ≡ true
unfolding replace_runs
replaced in_run [] = refl
replaced in_run (c ∷ s) = ground (arith, replaced false s, replaced true s)

trimmed_left :
    (after_dash : Bool) (s : List ℕ)
    → open_end after_dash s ≡ true
    → open_end true (trim_dashes_left s) ≡ true
unfolding trim_dashes_left
trimmed_left after_dash [] h = refl
trimmed_left after_dash (c ∷ s) h = ground (arith, trimmed_left true s, no_dash c)

-- Empty, or tidy.
abbrev tidy_or_empty : Bool → List ℕ → Bool
tidy_or_empty after_dash [] = true
tidy_or_empty after_dash (c ∷ s) = tidy after_dash (c ∷ s)

consed :
    (after_dash : Bool) (c : ℕ) (rest : List ℕ)
    → (is_alphanumeric c && tidy_or_empty false rest)
        || (eqb c dash && not after_dash && tidy_or_empty true rest)
      ≡ true
    → tidy_or_empty after_dash (cons_trimmed c rest) ≡ true
consed after_dash c [] h = ground (arith, no_dash c)
consed after_dash c (d ∷ rest) h = h

trimmed_right :
    (after_dash : Bool) (s : List ℕ)
    → open_end after_dash s ≡ true
    → tidy_or_empty after_dash (trim_dashes_right s) ≡ true
unfolding trim_dashes_right
trimmed_right after_dash [] h = refl
trimmed_right after_dash (c ∷ s) h =
    consed after_dash c (trim_dashes_right s)
      (ground (arith, trimmed_right false s, trimmed_right true s))

or_status-tidy : (s : List ℕ) → tidy_or_empty true s ≡ true → tidy true (or_status s) ≡ true
or_status-tidy [] h = refl
or_status-tidy (c ∷ s) h = h

tidy-append :
    (after_dash : Bool) (s t : List ℕ)
    → tidy after_dash s ≡ true
    → tidy true t ≡ true
    → tidy after_dash (s ++ dash ∷ t) ≡ true
tidy-append after_dash [] t h g = ground arith
tidy-append after_dash (c ∷ s) t h g = ground (arith, tidy-append false s t, tidy-append true s t)

-- Whatever the title is, its slug consists of lower-case letters and digits in groups with single dashes
-- between them, and neither begins nor ends with a dash, if the random characters are such.
pub generate_slug-tidy :
    (lower suffix : List ℕ)
    → tidy true suffix ≡ true
    → tidy true (generate_slug lower suffix) ≡ true
unfolding generate_slug
generate_slug-tidy lower suffix h =
    tidy-append true (or_status (trim_dashes_right (trim_dashes_left (replace_runs false lower))))
      suffix
      (or_status-tidy (trim_dashes_right (trim_dashes_left (replace_runs false lower))) (
        trimmed_right true (trim_dashes_left (replace_runs false lower))
          (trimmed_left false (replace_runs false lower) (replaced false lower))))
      h
