-- ===== src/Prelude/Maps.antt =====
-- A Go map as an association list: reading, writing and deleting a key.
use Prim.Native.String.{String}
use mathlib.Core.Path.{◌≡◌}
use mathlib.Core.List.{List, [], ◌∷◌}
use mathlib.Core.Option.{Option, none, some}
use native.Mathlib.Omega.{arith}
use text.Mathlib.Text.{◌==◌}
use text.Mathlib.TextEquality.{eq_iff}
use hivepulse.Prelude.Tests.{if◌then◌else◌}

abbrev pub Dict {ℓ} : Type ℓ → Type ℓ
Dict V = List (String × V)

module _ {ℓ} {V : Type ℓ} where
  -- `v, ok := m[k]`
  unfoldable pub lookup : String → Dict V → Option V
  lookup k [] = none
  lookup k ((j, v) ∷ m) = let rest = lookup k m in if j == k then some v else rest

  -- `delete(m, k)`
  unfoldable pub delete_key : String → Dict V → Dict V
  delete_key k [] = []
  delete_key k ((j, v) ∷ m) = let rest = delete_key k m in if j == k then rest else (j, v) ∷ rest

  -- `m[k] = v`
  unfoldable pub put : String → V → Dict V → Dict V
  put k v m = (k, v) ∷ delete_key k m

  pub lookup-delete_key :
      (k j : String) (m : Dict V)
      → lookup j (delete_key k m) ≡ (if k == j then none else lookup j m)
  unfolding lookup delete_key
  lookup-delete_key k j [] = ground arith
  lookup-delete_key k j ((i, v) ∷ m) =
      ground (arith, lookup-delete_key k j m, eq_iff i k, eq_iff i j, eq_iff k j)

  pub lookup-put :
      (k j : String) (v : V) (m : Dict V)
      → lookup j (put k v m) ≡ (if k == j then some v else lookup j m)
  unfolding lookup put
  lookup-put k j v m = ground (arith, lookup-delete_key k j m)
