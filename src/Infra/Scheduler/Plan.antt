-- ===== src/Infra/Scheduler/Plan.antt =====
-- The scheduler against what it promises: a plan that says which monitors are checked, and how often.
use hivepulse.Prelude.{
  String, ◌==◌, ◌≡◌, refl, ◌∙◌, true, false, Option, none, some, [], ◌∷◌, lookup, Option-cases,
  Bool-cases, inl, inr, ◌≢◌, arith, ℤ, eq_iff, if◌then◌else◌,
}
use hivepulse.Domain.{Monitor}
use hivepulse.Infra.Scheduler.{Cron, Scheduler, add, remove, update}
use hivepulse.Infra.Scheduler.Entries.{
  everies, planned, everies-append, planned_nil, none-planned, ids_of-none, everies-kept,
  everies-gone, everies-none,
}
use hivepulse.Infra.Scheduler.InStep.{without, InStep, add-InStep, remove-InStep, lookup-remove}

-- The seconds between two checks of each monitor that is checked.
abbrev pub Plan : Type 0
Plan = String → Option ℤ

abbrev pub set_plan : String → Option ℤ → Plan → Plan
set_plan id i p j = if id == j then i else p j

-- What the scheduler is asked to do.
pub data Request : Type 0 where
  adds : Monitor → Request
  removes : String → Request
  updates : Monitor → Request

abbrev pub wanted : Monitor → Option ℤ
wanted m = if m.enabled then some m.interval else none

-- A monitor is added only if it is not in the plan yet.
pub data PlanStep (p : Plan) : Request → Plan → Type 0 where
  plan_adds : (m : Monitor) → p m.id ≡ none → PlanStep p (adds m) (set_plan m.id (wanted m) p)
  plan_removes : (id : String) → PlanStep p (removes id) (set_plan id none p)
  plan_updates : (m : Monitor) → PlanStep p (updates m) (set_plan m.id (wanted m) p)

module _ (cron : Cron) where
  open cron use {Table, entries, add_func, remove_id}

  abbrev pub run : Request → Scheduler cron → Scheduler cron
  run (adds m) = add cron m
  run (removes id) = remove cron id
  run (updates m) = update cron m

  -- The cron runs the plan: each monitor of it by one entry, with its interval, and no other.
  pub record Implements (p : Plan) (s : Scheduler cron) : Type 0 where
    pub in_step : InStep cron s
    pub follows : (id : String) → everies id (entries s.cron_table) ≡ planned (p id)

  remove-Implements :
      (id : String) (p : Plan) (s : Scheduler cron)
      → Implements p s
      → Implements (set_plan id none p) (remove cron id s)
  unfolding remove
  remove-Implements id p s h = record {
    in_step = remove-InStep cron id h.in_step;
    follows = λ j. elim (Option-cases (lookup id s.jobs)) [
      | inl absent ↦ rw absent (
          ground (
            arith,
            h.follows j,
            h.in_step.agree id,
            everies-none id (entries s.cron_table),
            eq_iff id j,
          ))
      | inr (k, found) ↦ elim (Bool-cases (id == j)) [
        | inl same ↦
            rw (found, cron.entries-remove_id k s.cron_table, same)
              (everies-gone j k (entries s.cron_table) (
                unfold without in
                rw (← (eq_iff id j).0 same, h.in_step.agree id, found) (ground arith)))
        | inr other ↦
            rw (found, cron.entries-remove_id k s.cron_table, other, ← h.follows j)
              (everies-kept j k (entries s.cron_table) (
                ground (
                  arith,
                  h.in_step.agree j,
                  h.in_step.distinct id j k found,
                  eq_iff id j,
                  Option-cases (lookup j s.jobs),
                )))
      ]
    ];
  }

  -- The cron takes every interval.
  abbrev pub Accepts : Type 0
  Accepts = (i : ℤ) (m : String) (t : Table) → add_func i m t ≢ none

  add-Implements :
      (m : Monitor) (p : Plan) (s : Scheduler cron)
      → Accepts
      → lookup m.id s.jobs ≡ none
      → Implements p s
      → Implements (set_plan m.id (wanted m) p) (add cron m s)
  unfolding add
  add-Implements m p s accepts absent h = record {
    in_step = add-InStep cron m absent h.in_step;
    follows = λ j. elim (Bool-cases m.enabled) [
      | inr off ↦ rw off (
          ground (
            arith,
            h.follows j,
            h.in_step.agree m.id,
            everies-none m.id (entries s.cron_table),
            eq_iff m.id j,
          ))
      | inl on ↦ rw on (elim (Option-cases (add_func m.interval m.id s.cron_table)) [
        | inl failed ↦ ground (arith, accepts m.interval m.id s.cron_table)
        | inr ((k, t), done) ↦
            rw
              (
                done,
                cron.entries-add_func m.interval m.id s.cron_table k t done,
                everies-append j (entries s.cron_table)
                    (record { id = k; every = m.interval; runs = m.id } ∷ []),
                h.follows j,
              )
              (ground (
                arith,
                eq_iff m.id j,
                h.follows m.id,
                h.in_step.agree m.id,
                everies-none m.id (entries s.cron_table),
                none-planned (p m.id),
                planned_nil (p j),
              ))
      ])
    ];
  }

  absent_job :
      (id : String) (p : Plan) (s : Scheduler cron)
      → p id ≡ none
      → Implements p s
      → lookup id s.jobs ≡ none
  absent_job id p s unplanned h = elim (Option-cases (lookup id s.jobs)) [
    | inl absent ↦ absent
    | inr (k, found) ↦
        ground (arith, h.follows id, h.in_step.agree id, ids_of-none id (entries s.cron_table))
  ]

  set_twice :
      (id : String) (i : Option ℤ) (p : Plan) (s : Scheduler cron)
      → Implements (set_plan id i (set_plan id none p)) s
      → Implements (set_plan id i p) s
  set_twice id i p s h = record { in_step = h.in_step; follows = λ j. h.follows j ∙ ground arith }

  -- The scheduler refines the plan: if its cron runs a plan, each monitor of it by one entry with its
  -- interval and nothing else, then after a request it runs the plan that the request makes of it, if
  -- the cron takes every interval, and a monitor is added only while it is not in the plan.
  pub run-Implements :
      (p p' : Plan) (r : Request) (s : Scheduler cron)
      → ((i : ℤ) (m : String) (t : Table) → add_func i m t ≢ none)
      → PlanStep p r p'
      → Implements p s
      → Implements p' (run r s)
  unfolding update
  run-Implements p _ _ s accepts (plan_adds m unplanned) h =
      add-Implements m p s accepts (absent_job m.id p s unplanned h) h
  run-Implements p _ _ s accepts (plan_removes id) h = remove-Implements id p s h
  run-Implements p _ _ s accepts (plan_updates m) h =
      let s1 : Scheduler cron = remove cron m.id s in
      let h1 : Implements (set_plan m.id none p) s1 = remove-Implements m.id p s h in
      (elim m.enabled
          as (λ b.
            m.enabled ≡ b
            → Implements (set_plan m.id (wanted m) p) (if b then add cron m s1 else s1)) [
              | true ↦ λ on. set_twice m.id (wanted m) p (add cron m s1) (
                  add-Implements m (set_plan m.id none p) s1 accepts (lookup-remove cron m.id s) h1)
              | false ↦ λ off. rw off h1
            ])
        refl
