-- ===== src/Infra/Scheduler/Entries.antt =====
-- The intervals at which the entries of the cron check a monitor.
use hivepulse.Prelude.{
  ℕ, String, ◌≡◌, refl, false, not, Option, none, some, List, [], ◌∷◌, ◌++◌, select, arith, ℤ,
  if◌then◌else◌,
}
use hivepulse.Infra.Scheduler.{CronEntry, has_id}
use hivepulse.Infra.Scheduler.InStep.{runs, has, without, ids_of}

-- The intervals of the entries that check a monitor.
abbrev pub everies : String → List CronEntry → List ℤ
everies id [] = []
everies id (e ∷ es) = let rest = everies id es in if runs id e then e.every ∷ rest else rest

abbrev pub planned : Option ℤ → List ℤ
planned none = []
planned (some i) = i ∷ []

pub everies-append :
    (id : String) (es fs : List CronEntry) → everies id (es ++ fs) ≡ everies id es ++ everies id fs
everies-append id [] fs = refl
everies-append id (e ∷ es) fs = ground (arith, everies-append id es fs)

pub planned_nil : (i : Option ℤ) → planned i ++ [] ≡ planned i
planned_nil none = refl
planned_nil (some i) = refl

pub none-planned : (i : Option ℤ) → planned i ≡ [] → i ≡ none
none-planned none h = refl
none-planned (some i) h = cc

pub ids_of-none : (j : String) (es : List CronEntry) → everies j es ≡ [] → ids_of j es ≡ []
ids_of-none j [] h = refl
ids_of-none j (e ∷ es) h = ground (arith, ids_of-none j es)

-- Removing an id leaves the entries of a monitor that has no entry with it.
pub everies-kept :
    (j : String) (k : ℕ) (es : List CronEntry)
    → has k (ids_of j es) ≡ false
    → everies j (select (λ e. not (has_id k e)) es) ≡ everies j es
everies-kept j k [] h = refl
everies-kept j k (e ∷ es) h = ground (arith, everies-kept j k es)

-- It takes the entries of a monitor that has no others.
pub everies-gone :
    (j : String) (k : ℕ) (es : List CronEntry)
    → without k (ids_of j es) ≡ []
    → everies j (select (λ e. not (has_id k e)) es) ≡ []
unfolding without
everies-gone j k [] h = refl
everies-gone j k (e ∷ es) h = ground (arith, everies-gone j k es)

pub everies-none : (j : String) (es : List CronEntry) → ids_of j es ≡ [] → everies j es ≡ []
everies-none j [] h = refl
everies-none j (e ∷ es) h = ground (arith, everies-none j es)
