-- ===== src/Program/Start.antt =====
-- What the scheduler runs once the program has started.
use hivepulse.Prelude.{
  String, ◌==◌, ◌≡◌, ◌≢◌, refl, ap, ◌∙◌, true, false, Option, none, some, List, [], ◌∷◌, any,
  select, find, distinct_on, distinct_on-select, lookup, arith, ℤ, Bool-cases, inl, inr, eq_iff,
  eq_refl,
}
use hivepulse.Domain.{ok, Monitor}
use hivepulse.World.{World, fetch_calm}
use hivepulse.Repo.Monitors
use hivepulse.Infra.Scheduler.{Cron, Scheduler, add, service}
use hivepulse.Infra.Scheduler.Entries.{planned}
use hivepulse.Infra.Scheduler.Plan.{
  Plan, set_plan, wanted, adds, plan_adds, Implements, run-Implements,
}
use hivepulse.Program.{add_all, load_jobs}

abbrev monitor_id : Monitor → String
monitor_id m = m.id

-- The interval of the first monitor with the id, or else that of the plan.
abbrev pub over : Option Monitor → Option ℤ → Option ℤ
over none i = i
over (some m) i = wanted m

abbrev plan_over : List Monitor → Plan → Plan
plan_over ms p id = over (find (λ m. m.id == id) ms) (p id)

-- No monitor of the list is in the plan.
abbrev Free : List Monitor → Plan → Type 0
Free ms p = (id : String) → any (λ m. m.id == id) ms ≡ true → p id ≡ none

find-none :
    (id : String) (ms : List Monitor)
    → any (λ m. m.id == id) ms ≡ false
    → find (λ m. m.id == id) ms ≡ none
find-none id [] h = refl
find-none id (m ∷ ms) h = ground (arith, find-none id ms)

-- One monitor more.
over_next :
    (m : Monitor) (ms : List Monitor) (p : Plan) (id : String)
    → any (λ x. x.id == m.id) ms ≡ false
    → plan_over ms (set_plan m.id (wanted m) p) id ≡ plan_over (m ∷ ms) p id
over_next m ms p id alone = elim (Bool-cases (m.id == id)) [
  | inl same ↦ rw (same, ← (eq_iff m.id id).0 same, find-none m.id ms alone) refl
  | inr other ↦ rw other refl
]

module _ (cron : Cron) where
  open cron use {Table, entries, add_func}

  same_plan :
      (p q : Plan) (s : Scheduler cron)
      → ((id : String) → p id ≡ q id)
      → Implements cron p s
      → Implements cron q s
  same_plan p q s same h = record {
    in_step = h.in_step;
    follows = λ id. h.follows id ∙ ap planned (same id);
  }

  next-Free :
      (m : Monitor) (ms : List Monitor) (p : Plan)
      → any (λ x. x.id == m.id) ms ≡ false
      → Free (m ∷ ms) p
      → Free ms (set_plan m.id (wanted m) p)
  next-Free m ms p alone free id here = elim (Bool-cases (m.id == id)) [
    | inl same ↦
        let e = (eq_iff m.id id).0 same in
        let there : any (λ x. x.id == m.id) ms ≡ true = rw e here in ground arith
    | inr other ↦ rw other (free id (ground arith))
  ]

  add_all-Implements :
      (ms : List Monitor) (p : Plan) (s : Scheduler cron)
      → ((i : ℤ) (m : String) (t : Table) → add_func i m t ≢ none)
      → distinct_on monitor_id ms ≡ true
      → Free ms p
      → Implements cron p s
      → Implements cron (plan_over ms p) (add_all (service cron) ms s)
  add_all-Implements [] p s accepts d free h = same_plan p (plan_over [] p) s (λ id. refl) h
  add_all-Implements (m ∷ ms) p s accepts d free h =
      let alone : any (λ x. x.id == m.id) ms ≡ false = ground arith in
      let next : Plan = set_plan m.id (wanted m) p in
      let h1 : Implements cron next (add cron m s) =
        run-Implements cron p next (adds m) s accepts
          (plan_adds m (free m.id (ground (arith, eq_refl m.id)))) h in
      same_plan (plan_over ms next) (plan_over (m ∷ ms) p)
        (add_all (service cron) ms (add cron m s)) (λ id. over_next m ms p id alone)
        (add_all-Implements ms next (add cron m s) accepts (ground arith)
          (next-Free m ms p alone free) h1)

  empty-Implements :
      (t : Table)
      → entries t ≡ []
      → Implements cron (λ id. none) (record { cron_table = t; jobs = [] })
  unfolding lookup
  empty-Implements t e = record {
    in_step = record { agree = λ id. rw e refl; distinct = λ id j k f g. cc };
    follows = λ id. rw e refl;
  }

  -- Once the program has started, the cron checks just the enabled monitors of the database, each by one
  -- entry with its interval: if the database works, no two monitors have one id, and the cron, which is
  -- empty before, takes every interval.
  pub load_jobs-Implements :
      (w : World) (t : Table)
      → w.faults ≡ []
      → distinct_on (λ m. m.id) w.db.monitors ≡ true
      → ((i : ℤ) (m : String) (t : Table) → add_func i m t ≢ none)
      → entries t ≡ []
      → Implements cron
          (λ id. over (find (λ m. m.id == id) (select (λ m. m.enabled) w.db.monitors)) none)
          (load_jobs (service cron) w (record { cron_table = t; jobs = [] })).1
  unfolding load_jobs Monitors.find_all_enabled
  load_jobs-Implements w t calm d accepts e =
      let ms : List Monitor = select (λ m. m.enabled) w.db.monitors in
      rw (fetch_calm (λ d. ok (select (λ m. m.enabled) d.monitors)) w calm) (
        add_all-Implements ms (λ id. none) (record { cron_table = t; jobs = [] }) accepts
          (distinct_on-select monitor_id (λ m. m.enabled) w.db.monitors d) (λ id here. refl)
          (empty-Implements t e))
