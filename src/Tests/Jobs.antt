-- ===== src/Tests/Jobs.antt =====
-- A cron that numbers its entries, and the jobs of two monitors on it.
use hivepulse.Prelude.{
  find, select, ◌==◌, ℕ, suc, ◌+◌, ◌<◌, String, ◌≡◌, refl, false, not, Option, none, some, List, [],
  ◌∷◌, ◌++◌, any, length, lookup, ℤ, eq_iff, arith,
}
use hivepulse.Tasks.{done, Leads}
use hivepulse.Infra.Scheduler.Updates.{update_task, two_updates_leak}
use hivepulse.Infra.Scheduler.{CronEntry, has_id, Cron, Scheduler, service, remove}
use hivepulse.Infra.Scheduler.InStep.{InStep, ids_of, listed}
use hivepulse.Program.{load_jobs}
use hivepulse.Program.Start.{over, load_jobs-Implements}
use hivepulse.Tests.Data.{site, world}
use hivepulse.Prelude.{◌≢◌, false}
use hivepulse.Domain.{Monitor}
use hivepulse.Infra.Scheduler.Entries.{everies, planned}
use hivepulse.Infra.Scheduler.Plan.{
  Plan, set_plan, wanted, updates, plan_updates, run, Implements, run-Implements,
}

abbrev total : List CronEntry → ℕ
total [] = 0
total (e ∷ es) = e.id + total es

unused : (k : ℕ) (es : List CronEntry) → total es < k → any (has_id k) es ≡ false
unused k [] h = refl
unused k (e ∷ es) h = ground (arith, unused k es)

abbrev entry_of : ℤ → String → List CronEntry → CronEntry
entry_of i m es = record { id = suc (total es); every = i; runs = m }

abbrev take_in : ℤ → String → List CronEntry → Option (ℕ × List CronEntry)
take_in i m es = some (suc (total es), es ++ entry_of i m es ∷ [])

abbrev take_out : ℕ → List CronEntry → List CronEntry
take_out k es = select (λ e. not (has_id k e)) es

taken_in :
    (i : ℤ) (m : String) (es : List CronEntry) (k : ℕ) (es' : List CronEntry)
    → take_in i m es ≡ some (k, es')
    → es' ≡ es ++ record { id = k; every = i; runs = m } ∷ []
taken_in i m es k es' h = cc

taken_fresh :
    (i : ℤ) (m : String) (es : List CronEntry) (k : ℕ) (es' : List CronEntry)
    → take_in i m es ≡ some (k, es')
    → any (has_id k) es ≡ false
taken_fresh i m es k es' h = ground (arith, unused k es)

abbrev numbering : Cron
numbering = record {
  Table = List CronEntry;
  entries = λ es. es;
  add_func = take_in;
  remove_id = take_out;
  entries-add_func = taken_in;
  add_func_fresh = taken_fresh;
  entries-remove_id = λ k es. refl;
}

abbrev jobs : Scheduler numbering
jobs = record {
  cron_table =
      record { id = 1; every = ℤ.pos 60; runs = "m1" }
      ∷ record { id = 2; every = ℤ.pos 30; runs = "m2" }
      ∷ [];
  jobs = ("m1", 1) ∷ ("m2", 2) ∷ [];
}

jobs_agree : (id : String) → ids_of id jobs.cron_table ≡ listed (lookup id jobs.jobs)
unfolding lookup
jobs_agree id = ground (arith, eq_iff "m1" id, eq_iff "m2" id, eq_iff "m1" "m2")

jobs_distinct :
    (id j : String) (k : ℕ) → lookup id jobs.jobs ≡ some k → lookup j jobs.jobs ≡ some k → id ≡ j
unfolding lookup
jobs_distinct id j k p q =
    ground (arith, eq_iff "m1" id, eq_iff "m2" id, eq_iff "m1" j, eq_iff "m2" j)

jobs-InStep : InStep numbering jobs
jobs-InStep = record { agree = jobs_agree; distinct = jobs_distinct }

abbrev plan : Plan
plan = set_plan "m1" (some (ℤ.pos 60)) (set_plan "m2" (some (ℤ.pos 30)) (λ id. none))

jobs_follow : (id : String) → everies id jobs.cron_table ≡ planned (plan id)
jobs_follow id = ground (arith, eq_iff "m1" id, eq_iff "m2" id, eq_iff "m1" "m2")

jobs-Implements : Implements numbering plan jobs
jobs-Implements = record { in_step = jobs-InStep; follows = jobs_follow }

takes_all : (i : ℤ) (m : String) (es : List CronEntry) → take_in i m es ≢ none
takes_all i m es h = ground arith

abbrev paused : Monitor
paused = record site { enabled = false }

run-Implements_example :
    Implements numbering (set_plan "m1" (wanted paused) plan) (run numbering (updates paused) jobs)
run-Implements_example =
    run-Implements numbering plan (set_plan "m1" (wanted paused) plan) (updates paused) jobs
      takes_all (plan_updates paused) jobs-Implements

load_jobs-Implements_example :
    Implements numbering
      (λ id. over (find (λ m. m.id == id) (select (λ m. m.enabled) world.db.monitors)) none)
      (load_jobs (service numbering) world (record { cron_table = []; jobs = [] })).1
load_jobs-Implements_example = load_jobs-Implements numbering world [] refl refl takes_all refl

two_updates_leak_example :
    (v : Scheduler numbering) × Leads
      (update_task numbering site
        ∷ update_task numbering (record site { interval = ℤ.pos 300 })
        ∷ [])
      jobs
      (done tt ∷ done tt ∷ [])
      v
    × (length (ids_of "m1" v.cron_table) ≡ 2)
    × (lookup "m1" (remove numbering "m1" v).jobs ≡ none)
    × (length (ids_of "m1" (remove numbering "m1" v).cron_table) ≡ 1)
two_updates_leak_example =
    two_updates_leak numbering site (ℤ.pos 300) jobs refl jobs-InStep takes_all
