-- ===== src/Repo/Stats/Sums.antt =====
-- Grouping by the hour loses no row.
use hivepulse.Prelude.{ℕ, ◌+◌, ◌*◌, ◌≡◌, refl, List, [], ◌∷◌, arith}
use hivepulse.Domain.{BucketRow}
use hivepulse.Repo.Stats.{Group, group_of, joined, add_row, groups}

-- The sum of a column of a list.
abbrev pub sum_of {ℓ} : {A : Type ℓ} → (A → ℕ) → List A → ℕ
sum_of f [] = 0
sum_of f (x ∷ xs) = f x + sum_of f xs

-- A column of the rows, which the groups add up.
pub record AddsUp (f : BucketRow → ℕ) (g : Group → ℕ) : Type 0 where
  pub alone : (r : BucketRow) → g (group_of r) ≡ f r
  pub together : (r : BucketRow) (x : Group) → g (joined r x) ≡ f r + g x

sum-add_row :
    (f : BucketRow → ℕ) (g : Group → ℕ) (r : BucketRow) (gs : List Group)
    → AddsUp f g
    → sum_of g (add_row r gs) ≡ f r + sum_of g gs
unfolding add_row
sum-add_row f g r [] a = ground (arith, a.alone r)
sum-add_row f g r (x ∷ gs) a = ground (arith, a.alone r, a.together r x, sum-add_row f g r gs a)

pub sum-groups :
    (f : BucketRow → ℕ) (g : Group → ℕ) (rs : List BucketRow)
    → AddsUp f g
    → sum_of g (groups rs) ≡ sum_of f rs
unfolding groups
sum-groups f g [] a = refl
sum-groups f g (r ∷ rs) a = omega (arith, sum-add_row f g r (groups rs) a, sum-groups f g rs a)

pub totals_add_up : AddsUp (λ r. r.total_count) (λ g. g.total_count)
totals_add_up = record { alone = λ r. refl; together = λ r x. refl }

pub ups_add_up : AddsUp (λ r. r.up_count) (λ g. g.up_count)
ups_add_up = record { alone = λ r. refl; together = λ r x. refl }

pub weights_add_up : AddsUp (λ r. r.avg_ping_ms * r.total_count) (λ g. g.weighted)
weights_add_up = record { alone = λ r. refl; together = λ r x. refl }
