-- ===== src/Infra/Scheduler.antt =====
-- internal/infrastructure/scheduler.go: which monitors are checked, and how often. The library
-- robfig/cron is a parameter.
pub mod InStep
pub mod Requests
pub mod Entries
pub mod Plan
pub mod Updates
use hivepulse.Prelude.{
  ℕ, String, ◌==◌, ◌≡◌, Bool, false, not, Option, none, some, List, [], ◌∷◌, ◌++◌, any, select, eqb,
  ℤ, Dict, lookup, put, delete_key, if◌then◌else◌,
}
use hivepulse.Domain.{Monitor}
use hivepulse.Usecase.Monitor.{SchedulerService}

-- One function of the cron: its id, the seconds of `@every %ds`, and the monitor that it checks.
pub record CronEntry : Type 0 where
  pub id : ℕ
  pub every : ℤ
  pub runs : String

abbrev pub has_id : ℕ → CronEntry → Bool
has_id k e = eqb e.id k

-- What the scheduler uses of `cron.Cron`. `AddFunc` gives an id that no entry has, or an error, and
-- `Remove` takes the entry of an id away.
pub record Cron : Type 1 where
  pub Table : Type 0
  pub entries : Table → List CronEntry
  pub add_func : ℤ → String → Table → Option (ℕ × Table)
  pub remove_id : ℕ → Table → Table
  pub entries-add_func :
      (i : ℤ) (m : String) (t : Table) (k : ℕ) (t' : Table)
      → add_func i m t ≡ some (k, t')
      → entries t' ≡ entries t ++ record { id = k; every = i; runs = m } ∷ []
  pub add_func_fresh :
      (i : ℤ) (m : String) (t : Table) (k : ℕ) (t' : Table)
      → add_func i m t ≡ some (k, t')
      → any (has_id k) (entries t) ≡ false
  pub entries-remove_id :
      (k : ℕ) (t : Table) → entries (remove_id k t) ≡ select (λ e. not (has_id k e)) (entries t)

module _ (cron : Cron) where
  open cron use {Table, entries, add_func, remove_id}

  pub record Scheduler : Type 0 where
    pub cron_table : Table
    pub jobs : Dict ℕ

  abbrev pub added : String → Option (ℕ × Table) → Scheduler → Scheduler
  added id none s = s
  added id (some (k, t)) s = record { cron_table = t; jobs = put id k s.jobs }

  -- `Scheduler.Add`
  unfoldable pub add : Monitor → Scheduler → Scheduler
  add m s = if not m.enabled then s else added m.id (add_func m.interval m.id s.cron_table) s

  abbrev pub removed : String → Option ℕ → Scheduler → Scheduler
  removed id none s = s
  removed id (some k) s = record {
    cron_table = remove_id k s.cron_table;
    jobs = delete_key id s.jobs;
  }

  -- `Scheduler.Remove`
  unfoldable pub remove : String → Scheduler → Scheduler
  remove id s = removed id (lookup id s.jobs) s

  -- `Scheduler.Update`
  unfoldable pub update : Monitor → Scheduler → Scheduler
  update m s = let s1 = remove m.id s in if m.enabled then add m s1 else s1

  -- It is the scheduler that main.go gives to the requests on monitors.
  abbrev pub service : SchedulerService
  service = record { Jobs = Scheduler; add = add; remove = remove; update = update }
