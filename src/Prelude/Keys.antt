-- ===== src/Prelude/Keys.antt =====
-- Rows whose keys are distinct, as a PRIMARY KEY or a UNIQUE column keeps them.
use Prim.Native.String.{String}
use mathlib.Core.Path.{◌≡◌, refl}
use mathlib.Core.Logic.{inl, inr}
use mathlib.Core.Bool.{Bool, true, false, not, ◌&&◌}
use mathlib.Core.List.{List, [], ◌∷◌, ◌++◌}
use native.Mathlib.Omega.{arith}
use text.Mathlib.Text.{◌==◌}
use text.Mathlib.TextEquality.{eq_iff}
use hivepulse.Prelude.Tests.{Bool-cases}
use hivepulse.Prelude.Lists.{any, any-append, select, update}

module _ {ℓ} {A : Type ℓ} where
  pub any-select : (p q : A → Bool) (xs : List A) → any q xs ≡ false → any q (select p xs) ≡ false
  any-select p q [] h = refl
  any-select p q (x ∷ xs) h = ground (arith, any-select p q xs)

module _ {ℓ} {A : Type ℓ} (key : A → String) where
  abbrev pub distinct_on : List A → Bool
  distinct_on [] = true
  distinct_on (x ∷ xs) = not (any (λ y. key y == key x) xs) && distinct_on xs

  pub distinct_on-snoc :
      (x : A) (xs : List A)
      → any (λ y. key y == key x) xs ≡ false
      → distinct_on xs ≡ true
      → distinct_on (xs ++ x ∷ []) ≡ true
  distinct_on-snoc x [] new h = refl
  distinct_on-snoc x (y ∷ xs) new h = ground (
    arith,
    distinct_on-snoc x xs,
    any-append (λ z. key z == key y) xs (x ∷ []),
    eq_iff (key y) (key x),
    eq_iff (key x) (key y),
  )

  -- The rows that a DELETE leaves.
  pub distinct_on-select :
      (p : A → Bool) (xs : List A) → distinct_on xs ≡ true → distinct_on (select p xs) ≡ true
  distinct_on-select p [] h = refl
  distinct_on-select p (x ∷ xs) h =
      ground (arith, distinct_on-select p xs, any-select p (λ y. key y == key x) xs)

  -- A change of some rows that leaves their keys.
  module _ (p : A → Bool) (f : A → A) (keeps : (x : A) → key (f x) ≡ key x) where
    any-update_kept :
        (k : String) (xs : List A)
        → any (λ y. key y == k) (update p f xs) ≡ any (λ y. key y == k) xs
    any-update_kept k [] = refl
    any-update_kept k (x ∷ xs) = ground (arith, any-update_kept k xs, keeps x)

    pub distinct_on-update_kept : (xs : List A) → distinct_on (update p f xs) ≡ distinct_on xs
    distinct_on-update_kept [] = refl
    distinct_on-update_kept (x ∷ xs) = ground (
      arith,
      distinct_on-update_kept xs,
      any-update_kept (key x) xs,
      any-update_kept (key (f x)) xs,
      keeps x,
    )

pub update_none {ℓ} :
    {A : Type ℓ} (p : A → Bool) (f : A → A) (xs : List A) → any p xs ≡ false → update p f xs ≡ xs
update_none p f [] h = refl
update_none p f (x ∷ xs) h = ground (arith, update_none p f xs)

-- A change of the row with an id that gives it the key `s`, which no other row has.
module _ {ℓ} {A : Type ℓ} (id key : A → String) (f : A → A) (i s : String)
    (sets : (x : A) → key (f x) ≡ s) where
  free-update :
      (k : String) (xs : List A)
      → (s == k) ≡ false
      → any (λ y. key y == k) xs ≡ false
      → any (λ y. key y == k) (update (λ x. id x == i) f xs) ≡ false
  free-update k [] ne h = refl
  free-update k (x ∷ xs) ne h = ground (arith, free-update k xs, sets x)

  alone :
      (xs : List A)
      → any (λ x. id x == i) xs ≡ false
      → any (λ x. key x == s && not (id x == i)) xs ≡ false
      → any (λ x. key x == s) xs ≡ false
  alone [] none_here free = refl
  alone (x ∷ xs) none_here free = ground (arith, alone xs)

  pub distinct_on-update_set :
      (xs : List A)
      → distinct_on id xs ≡ true
      → distinct_on key xs ≡ true
      → any (λ x. key x == s && not (id x == i)) xs ≡ false
      → distinct_on key (update (λ x. id x == i) f xs) ≡ true
  distinct_on-update_set [] ids keys free = refl
  distinct_on-update_set (x ∷ xs) ids keys free = elim (Bool-cases (id x == i)) [
    | inl here ↦
        let others : any (λ y. id y == i) xs ≡ false =
          rw (← (eq_iff (id x) i).0 here) (ground arith) in
        rw (here, update_none (λ y. id y == i) f xs others, sets x)
          (ground (arith, alone xs others))
    | inr there ↦ rw there (
        ground (
          arith,
          distinct_on-update_set xs,
          free-update (key x) xs,
          eq_iff s (key x),
          eq_iff (key x) s,
        ))
  ]
