-- ===== src/Prelude/Loops.antt =====
-- What the loops `any`, `all` and `find` say of the lists that the queries make.
use Prim.Native.Nat.{ℕ, zero, suc}
use mathlib.Core.Path.{◌≡◌, refl}
use mathlib.Core.Logic.{inl, inr}
use mathlib.Core.Option.{some}
use mathlib.Core.Bool.{Bool, true, false, ◌&&◌}
use mathlib.Core.List.{List, [], ◌∷◌}
use native.Mathlib.Omega.{arith}
use hivepulse.Prelude.Tests.{Bool-cases}
use hivepulse.Prelude.Lists.{any, all, find, select, take, insert_by, order_by}

module _ {ℓ} {A : Type ℓ} (p : A → Bool) where
  pub all-select : (q : A → Bool) (xs : List A) → all p xs ≡ true → all p (select q xs) ≡ true
  all-select q [] h = refl
  all-select q (x ∷ xs) h = ground (arith, all-select q xs)

  pub all-take : (n : ℕ) (xs : List A) → all p xs ≡ true → all p (take n xs) ≡ true
  all-take zero xs h = refl
  all-take (suc n) [] h = refl
  all-take (suc n) (x ∷ xs) h = ground (arith, all-take n xs)

  pub all-insert_by :
      (before : A → A → Bool) (x : A) (xs : List A)
      → p x ≡ true
      → all p xs ≡ true
      → all p (insert_by before x xs) ≡ true
  all-insert_by before x [] h hs = ground arith
  all-insert_by before x (y ∷ ys) h hs = ground (arith, all-insert_by before x ys)

  pub all-order_by :
      (before : A → A → Bool) (xs : List A) → all p xs ≡ true → all p (order_by before xs) ≡ true
  all-order_by before [] h = refl
  all-order_by before (x ∷ xs) h =
      ground (arith, all-order_by before xs, all-insert_by before x (order_by before xs))

module _ {ℓ} {A : Type ℓ} where
  pub all-imp :
      (p q : A → Bool) (imp : (x : A) → p x ≡ true → q x ≡ true) (xs : List A)
      → all p xs ≡ true
      → all q xs ≡ true
  all-imp p q imp [] h = refl
  all-imp p q imp (x ∷ xs) h = ground (arith, imp x, all-imp p q imp xs)

  pub any-imp :
      (p q : A → Bool) (imp : (x : A) → p x ≡ true → q x ≡ true) (xs : List A)
      → any p xs ≡ true
      → any q xs ≡ true
  any-imp p q imp [] h = h
  any-imp p q imp (x ∷ xs) h = ground (arith, imp x, any-imp p q imp xs)

  pub any-find :
      (p q : A → Bool) (x : A) (xs : List A)
      → find p xs ≡ some x
      → q x ≡ true
      → any (λ y. p y && q y) xs ≡ true
  any-find p q x [] h t = cc
  any-find p q x (y ∷ ys) h t = elim (Bool-cases (p y)) [
    | inl here ↦ rw here (let same : y ≡ x = ground arith in rw same (rw t refl))
    | inr there ↦ ground (arith, any-find p q x ys)
  ]

  -- Each element of a list is related to one of the list.
  pub all_self :
      (r : A → A → Bool) (same : (x : A) → r x x ≡ true) (xs : List A)
      → all (λ x. any (λ y. r y x) xs) xs ≡ true
  all_self r same [] = refl
  all_self r same (x ∷ xs) =
      let rest : all (λ z. any (λ y. r y z) (x ∷ xs)) xs ≡ true =
        all-imp (λ z. any (λ y. r y z) xs) (λ z. any (λ y. r y z) (x ∷ xs)) (λ z h. ground arith) xs
          (all_self r same xs) in
      rw (same x) rest

  -- What is selected meets the clause.
  pub all-where :
      (p q : A → Bool) (imp : (x : A) → p x ≡ true → q x ≡ true) (xs : List A)
      → all q (select p xs) ≡ true
  all-where p q imp [] = refl
  all-where p q imp (x ∷ xs) = ground (arith, imp x, all-where p q imp xs)

  -- Two clauses that agree select the same rows.
  pub select_ext :
      (p q : A → Bool) (same : (x : A) → p x ≡ q x) (xs : List A) → select p xs ≡ select q xs
  select_ext p q same [] = refl
  select_ext p q same (x ∷ xs) = ground (arith, same x, select_ext p q same xs)

  pub select_never : (xs : List A) → select (λ x. false) xs ≡ []
  select_never [] = refl
  select_never (x ∷ xs) = select_never xs
