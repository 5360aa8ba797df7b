-- ===== src/Usecase/Stats/Mean.antt =====
-- What the numbers of the overview say of the rows.
use native.Mathlib.Nat.{div-le_of_le-mul, div-lt_iff_lt-mul, mul-le-mul_right, mul_comm}
use hivepulse.Prelude.{
  ℕ, zero, suc, ◌+◌, ◌<◌, ◌-◌, ◌*◌, ◌≤◌, ◌≡◌, refl, ap, ◌∙◌, Bool-cases, inl, inr, false, List, [],
  ◌∷◌, All, any, eqb, ltb, arith,
}
use hivepulse.Domain.{ok, hour, BucketRow, OverviewStats}
use hivepulse.World.{World, fetch_calm}
use hivepulse.Repo.Stats
use hivepulse.Repo.Stats.{
  Group, add_row, groups, group_of, joined, weighted_mean, global_bucket, global_buckets,
  hours_since,
}
use hivepulse.Repo.Stats.Sums.{sum_of, sum-groups, totals_add_up, ups_add_up}
use hivepulse.Usecase.Stats.{
  total_up, total_all, sum_weighted, quotient_or_zero, overview, get_overview,
}

total_all-global :
    (gs : List Group) → total_all (global_buckets gs) ≡ sum_of (λ g. g.total_count) gs
total_all-global [] = refl
total_all-global (g ∷ gs) = omega (arith, total_all-global gs)

total_up-global : (gs : List Group) → total_up (global_buckets gs) ≡ sum_of (λ g. g.up_count) gs
total_up-global [] = refl
total_up-global (g ∷ gs) = omega (arith, total_up-global gs)

-- A sum that is at most `m` for each one has a mean of at most `m`.
mean-le : (m sum n : ℕ) → sum ≤ m * n → quotient_or_zero sum n ≤ m
mean-le m sum zero h = omega arith
mean-le m sum (suc n) h = div-le_of_le-mul (suc n) (rw (mul_comm (suc n) m) h)

-- The groups' weights are at most `m` for each heartbeat.
abbrev Light : ℕ → List Group → Type 0
Light m gs = All (λ g. g.weighted ≤ m * g.total_count) gs

add_row-Light :
    (m : ℕ) (r : BucketRow) (gs : List Group)
    → r.avg_ping_ms ≤ m
    → Light m gs
    → Light m (add_row r gs)
unfolding add_row
add_row-Light m r [] h l = (grind arith, tt)
add_row-Light m r (g ∷ gs) h (l, rest) =
    let own : r.avg_ping_ms * r.total_count ≤ m * r.total_count = grind arith in
    let more = add_row-Light m r gs h rest in
    elim (Bool-cases (eqb g.time r.time)) [
      | inl same ↦ rw same (grind arith, rest)
      | inr other ↦ elim (Bool-cases (ltb r.time g.time)) [
        | inl before ↦ rw (other, before) (own, (l, rest))
        | inr later ↦ rw (other, later) (l, more)
      ]
    ]

groups-Light :
    (m : ℕ) (rs : List BucketRow) → any (λ r. ltb m r.avg_ping_ms) rs ≡ false → Light m (groups rs)
unfolding groups
groups-Light m [] h = tt
groups-Light m (r ∷ rs) h =
    add_row-Light m r (groups rs) (ground arith) (groups-Light m rs (ground arith))

weighted_mean-le : (m sum n : ℕ) → sum ≤ m * n → weighted_mean sum n * n ≤ m * n
weighted_mean-le m sum zero h = omega arith
weighted_mean-le m sum (suc n) h =
    let wide : 2 * sum + suc n < suc m * (2 * suc n) = grind arith in
    let bound =
      (div-lt_iff_lt-mul {k = 2 * suc n} {x = 2 * sum + suc n} {y = suc m} (omega arith)).1 wide in
    mul-le-mul_right (suc n) (omega arith)

sum_weighted-le :
    (m : ℕ) (gs : List Group)
    → Light m gs
    → sum_weighted (global_buckets gs) ≤ m * total_all (global_buckets gs)
sum_weighted-le m [] h = omega arith
sum_weighted-le m (g ∷ gs) (l, rest) =
    let one = weighted_mean-le m g.weighted g.total_count l in
    let more = sum_weighted-le m gs rest in grind arith

-- Without faults of the database, the overview counts each row of the last twelve hours once: its
-- buckets add up to as many heartbeats, and as many that were up, as these rows do. Its mean ping is at
-- most `m` if that of each of these rows is.
pub get_overview_lem :
    (m : ℕ) (w : World)
    → w.faults ≡ []
    → any (λ r. ltb m r.avg_ping_ms) (hours_since (w.now - 12 * hour) w.db.hourly) ≡ false
    → (o : OverviewStats) × (get_overview w ≡ (ok o, w))
      × (total_all o.buckets
          ≡ sum_of (λ r. r.total_count) (hours_since (w.now - 12 * hour) w.db.hourly))
      × (total_up o.buckets
          ≡ sum_of (λ r. r.up_count) (hours_since (w.now - 12 * hour) w.db.hourly))
      × (o.avg_ping_ms ≤ m)
unfolding get_overview Stats.get_global_hourly
get_overview_lem m w calm light =
    let rows = hours_since (w.now - 12 * hour) w.db.hourly in
    let buckets = global_buckets (groups rows) in
    (
      record {
        avg_ping_ms = quotient_or_zero (sum_weighted buckets) (total_all buckets);
        buckets = buckets;
      },
      ap (λ p. (overview p.0, p.1))
          (fetch_calm (λ d. ok (global_buckets (groups (hours_since (w.now - 12 * hour) d.hourly))))
            w calm),
      total_all-global (groups rows)
          ∙ sum-groups (λ r. r.total_count) (λ g. g.total_count) rows totals_add_up,
      total_up-global (groups rows)
          ∙ sum-groups (λ r. r.up_count) (λ g. g.up_count) rows ups_add_up,
      mean-le m (sum_weighted buckets) (total_all buckets)
          (sum_weighted-le m (groups rows) (groups-Light m rows light)),
    )
