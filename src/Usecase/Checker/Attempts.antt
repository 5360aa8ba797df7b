-- ===== src/Usecase/Checker/Attempts.antt =====
-- The loop of attempts stops at the first success, or at the last attempt.
use hivepulse.Prelude.{
  ℕ, zero, suc, ◌+◌, ◌-◌, ◌*◌, ◌≤◌, ◌<◌, ◌==◌, ◌≡◌, ◌⊎◌, inl, inr, true, false, some, arith,
  Bool-cases,
}
use hivepulse.Domain.{Heartbeat}
use hivepulse.Usecase.Checker.{attempts}

-- Where the loop stops that begins at attempt `first` and may make `extra` more.
pub record Stops (check : ℕ → Heartbeat) (first extra stop : ℕ) : Type 0 where
  pub from : first ≤ stop
  pub within : stop ≤ first + extra
  pub earlier : (j : ℕ) → first ≤ j → j < stop → ((check j).status == "up") ≡ false
  pub ended : (((check stop).status == "up") ≡ true) ⊎ (stop ≡ first + extra)

ends_here :
    (check : ℕ → Heartbeat) (first extra : ℕ)
    → (((check first).status == "up") ≡ true) ⊎ (first ≡ first + extra)
    → Stops check first extra first
ends_here check first extra why = record {
  from = omega arith;
  within = omega arith;
  earlier = λ j p q. absurd (omega arith);
  ended = why;
}

ends_later :
    (check : ℕ → Heartbeat) (first extra stop : ℕ)
    → ((check first).status == "up") ≡ false
    → Stops check (first + 1) extra stop
    → Stops check first (suc extra) stop
ends_later check first extra stop failed s = record {
  from = omega arith;
  within = omega arith;
  earlier = λ j p q. ground (arith, s.earlier j);
  ended = ground arith;
}

more_pause :
    (pause first stop : ℕ)
    → first + 1 ≤ stop
    → pause + (stop - (first + 1)) * pause ≡ (stop - first) * pause
more_pause pause first stop h =
    let e : stop - first ≡ suc (stop - (first + 1)) = omega arith in rw e (omega arith)

no_pause : (pause first : ℕ) → 0 ≡ (first - first) * pause
no_pause pause first = let e : first - first ≡ 0 = omega arith in rw e (omega arith)

pub attempts-Stops :
    (check : ℕ → Heartbeat) (pause first extra : ℕ)
    → (stop : ℕ) × (attempts check pause first (suc extra)
        ≡ (some (check stop), (stop - first) * pause))
      × Stops check first extra stop
unfolding attempts
attempts-Stops check pause first zero =
    (first, rw (← no_pause pause first), ends_here check first 0 (inr (omega arith)))
attempts-Stops check pause first (suc extra) = elim (Bool-cases ((check first).status == "up")) [
  | inl up ↦ (first, rw (up, ← no_pause pause first), ends_here check first (suc extra) (inl up))
  | inr failed ↦
      let (stop, runs, s) = attempts-Stops check pause (first + 1) extra in
      (
        stop,
        rw (failed, runs, more_pause pause first stop s.from),
        ends_later check first extra stop failed s,
      )
]
