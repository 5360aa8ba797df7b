-- ===== src/Usecase/Checker/Gaps.antt =====
-- A negative number of retries stops the server: the heartbeat that no attempt has set is used.
use hivepulse.Prelude.{
  ℕ, ◌*◌, String, ◌≡◌, ◌↔◌, refl, Bool, true, none, some, [], arith, ℤ, to_nat, ltb_ℤ,
}
use hivepulse.Domain.{second, Monitor, Heartbeat}
use hivepulse.World.{World}
use hivepulse.Usecase.Checker.{Checkers, attempts, after_attempts, after_find, run_check, rounds}
use hivepulse.Usecase.Checker.Steps.{found_in, looked_up, checked}
use hivepulse.Usecase.Checker.Attempts.{attempts-Stops}

no_rounds :
    (check : ℕ → Heartbeat) (pause : ℕ) (r : ℤ) (n : Bool) (id : String) (m : Monitor) (w : World)
    → (after_attempts n id m (attempts check pause 0 (rounds r)) w ≡ none)
      ↔ (ltb_ℤ r (ℤ.pos 0) ≡ true)
unfolding attempts after_attempts
no_rounds check pause (ℤ.pos k) n id m w =
    let (stop, runs, s) = attempts-Stops check pause 0 k in rw runs (λ e. cc, λ e. ground arith)
no_rounds check pause (ℤ.negsuc k) n id m w = (λ e. refl, λ e. refl)

-- A check of an enabled monitor of a known type, that is found, panics exactly when its number of
-- retries is negative.
pub run_check-eq-none_iff :
    (cs : Checkers) (n : Bool) (id : String) (m : Monitor) (w : World)
    (check : ℕ → Monitor → Heartbeat)
    → w.faults ≡ []
    → found_in id w ≡ some m
    → m.enabled ≡ true
    → cs m.check_type ≡ some check
    → (run_check cs n id w ≡ none) ↔ (ltb_ℤ m.retries (ℤ.pos 0) ≡ true)
unfolding run_check after_find
run_check-eq-none_iff cs n id m w check calm found on typed =
    rw (looked_up cs n id m w calm found, checked cs n id m w check on typed)
      (no_rounds (λ i. check i m) (to_nat m.retry_interval * second) m.retries n id m w)
