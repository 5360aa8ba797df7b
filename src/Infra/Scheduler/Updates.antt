-- ===== src/Infra/Scheduler/Updates.antt =====
-- Updates of one monitor that overlap. The mutex is held while the map changes, and not between the removal
-- of the old job and the addition of the new one, nor between `AddFunc` and the write to the map.
use hivepulse.Prelude.{
  ℕ, String, ◌≡◌, ◌≢◌, refl, ap, ◌∙◌, true, false, not, Bool, Option, none, some, [], ◌∷◌, ◌++◌,
  any, any-append, eqb, lookup, put, lookup-put, length, ℤ, arith, eq_refl, if◌then◌else◌,
}
use hivepulse.Domain.{Monitor}
use hivepulse.Tasks.{Run, done, call, run, Leads, both_start}
use hivepulse.Infra.Scheduler.{
  CronEntry, has_id, Cron, Scheduler, add, added, remove, removed, update,
}
use hivepulse.Infra.Scheduler.InStep.{
  InStep, ids_of, ids_of-append, ids_of-remove, listed, without, remove-InStep, lookup-remove,
}

module _ (cron : Cron) where
  open cron use {Table, entries, add_func, remove_id}

  abbrev JobsTask : Type 1
  JobsTask = Run (Scheduler cron) (Unit {0})

  -- What `AddFunc` gives, with the table that it leaves.
  abbrev cron_added : Option (ℕ × Table) → Scheduler cron → Option ℕ × Scheduler cron
  cron_added none s = (none, s)
  cron_added (some (k, t)) s = (some k, record s { cron_table = t })

  abbrev cron_add : Monitor → Scheduler cron → Option ℕ × Scheduler cron
  cron_add m s = cron_added (add_func m.interval m.id s.cron_table) s

  -- `s.jobs[m.ID] = id`
  abbrev noted : String → Option ℕ → JobsTask
  noted id none = done tt
  noted id (some k) = call (λ s. (tt, record s { jobs = put id k s.jobs })) done

  abbrev add_task : Monitor → JobsTask
  add_task m = call (cron_add m) (noted m.id)

  -- `Scheduler.Update`, step by step.
  unfoldable pub update_task : Monitor → JobsTask
  update_task m =
      call (λ s. (tt, remove cron m.id s)) λ u. if m.enabled then add_task m else done tt

  noted_lem :
      (id : String) (o : Option (ℕ × Table)) (s : Scheduler cron)
      → run (noted id (cron_added o s).0) (cron_added o s).1 ≡ (tt, added cron id o s)
  unfolding run
  noted_lem id none s = refl
  noted_lem id (some (k, t)) s = refl

  -- With an addition that gives `o`, whether the monitor is enabled or not.
  if_enabled :
      (enabled : Bool) (m : Monitor) (s : Scheduler cron)
      → let o = add_func m.interval m.id s.cron_table in
        run (if enabled then add_task m else done tt) s
        ≡ (tt, if enabled then (if not enabled then s else added cron m.id o s) else s)
  unfolding run
  if_enabled true m s = noted_lem m.id (add_func m.interval m.id s.cron_table) s
  if_enabled false m s = refl

  -- Step by step, an update that runs alone does what `update` says.
  pub update_task-run :
      (m : Monitor) (s : Scheduler cron) → run (update_task m) s ≡ (tt, update cron m s)
  unfolding run update_task update add
  update_task-run m s = if_enabled m.enabled m (remove cron m.id s)

  -- The end of an update, if the cron takes the monitor.
  adds :
      (m : Monitor) (s : Scheduler cron) (k : ℕ) (t : Table)
      → m.enabled ≡ true
      → add_func m.interval m.id s.cron_table ≡ some (k, t)
      → run (if m.enabled then add_task m else done tt) s
        ≡ (tt, record { cron_table = t; jobs = put m.id k s.jobs })
  unfolding run
  adds m s k t on takes =
      elim m.enabled
          as (λ b.
            b ≡ true
            → run (if b then add_task m else done tt) s
              ≡ (tt, record { cron_table = t; jobs = put m.id k s.jobs })) [
                | true ↦ λ e.
                    noted_lem m.id (add_func m.interval m.id s.cron_table) s
                    ∙ ap (λ o. (tt, added cron m.id o s)) takes
                | false ↦ λ e. cc
              ]
        on

  -- Two entries that are added to a table without one of the monitor.
  two_entries :
      (i i' : ℤ) (id : String) (t t1 t2 : Table) (k k' : ℕ)
      → ids_of id (entries t) ≡ []
      → add_func i id t ≡ some (k, t1)
      → add_func i' id t1 ≡ some (k', t2)
      → (ids_of id (entries t2) ≡ k ∷ k' ∷ []) × (eqb k k' ≡ false)
  two_entries i i' id t t1 t2 k k' empty first second =
      let e1 = cron.entries-add_func i id t k t1 first in
      let e2 = cron.entries-add_func i' id t1 k' t2 second in
      let fresh = cron.add_func_fresh i' id t1 k' t2 second in
      let a : CronEntry = record { id = k; every = i; runs = id } in
      let b : CronEntry = record { id = k'; every = i'; runs = id } in
      let apart : any (has_id k') (entries t ++ a ∷ []) ≡ false = rw (← e1) fresh in
      (
        rw
            (
              e2,
              e1,
              ids_of-append id (entries t ++ a ∷ []) (b ∷ []),
              ids_of-append id (entries t) (a ∷ []),
              empty,
            )
            (ground (arith, eq_refl id)),
        ground (arith, any-append (has_id k') (entries t) (a ∷ [])),
      )

  taken : {A : Type 0} (o : Option A) → o ≢ none → (a : A) × (o ≡ some a)
  taken none refused = absurd (refused refl)
  taken (some a) refused = (a, refl)

  removed_twice :
      (id : String) (s : Scheduler cron) → remove cron id (remove cron id s) ≡ remove cron id s
  unfolding remove
  removed_twice id s = ap (λ o. removed cron id o (remove cron id s)) (lookup-remove cron id s)

  one_left :
      (id : String) (k k' : ℕ) (v : Scheduler cron)
      → ids_of id (entries v.cron_table) ≡ k ∷ k' ∷ []
      → eqb k k' ≡ false
      → lookup id v.jobs ≡ some k'
      → length (ids_of id (entries (remove cron id v).cron_table)) ≡ 1
  unfolding remove without
  one_left id k k' v two apart known =
      rw
        (
          known,
          cron.entries-remove_id k' v.cron_table,
          ids_of-remove id k' (entries v.cron_table),
          two,
        )
        (ground arith)

  -- Two updates of one enabled monitor that overlap, the second with another interval, leave it with two
  -- entries of the cron, in the order in which both remove the old job before either adds a new one; and
  -- when the monitor is removed afterwards, the map has no job of it, but one entry still runs its checks.
  -- The map and the table agreed before, and the cron takes every interval.
  pub two_updates_leak :
      (m : Monitor) (i' : ℤ) (s : Scheduler cron)
      → m.enabled ≡ true
      → InStep cron s
      → ((i : ℤ) (id : String) (t : Table) → add_func i id t ≢ none)
      → (v : Scheduler cron) × Leads
          (update_task m ∷ update_task (record m { interval = i' }) ∷ [])
          s
          (done tt ∷ done tt ∷ [])
          v
        × (length (ids_of m.id (entries v.cron_table)) ≡ 2)
        × (lookup m.id (remove cron m.id v).jobs ≡ none)
        × (length (ids_of m.id (entries (remove cron m.id v).cron_table)) ≡ 1)
  unfolding update_task
  two_updates_leak m i' s on h accepts =
      let s1 : Scheduler cron = remove cron m.id s in
      let gone : lookup m.id s1.jobs ≡ none = lookup-remove cron m.id s in
      let empty : ids_of m.id (entries s1.cron_table) ≡ [] =
        (remove-InStep cron m.id h).agree m.id ∙ ap listed gone in
      let ((k, t1), first) = taken (add_func m.interval m.id s1.cron_table) (accepts _ _ _) in
      let ((k', t2), second) = taken (add_func i' m.id t1) (accepts _ _ _) in
      let v1 : Scheduler cron = record { cron_table = t1; jobs = put m.id k s1.jobs } in
      let v : Scheduler cron = record { cron_table = t2; jobs = put m.id k' v1.jobs } in
      let (two, apart) =
        two_entries m.interval i' m.id s1.cron_table t1 t2 k k' empty first second in
      let known : lookup m.id v.jobs ≡ some k' =
        rw (lookup-put m.id m.id k' v1.jobs) (ground (arith, eq_refl m.id)) in
      (
        v,
        both_start _ _ _ _ s refl (ap (λ x. (tt, x)) (removed_twice m.id s))
            (adds m s1 k t1 on first) (adds (record m { interval = i' }) v1 k' t2 on second),
        ap length two,
        lookup-remove cron m.id v,
        one_left m.id k k' v two apart known,
      )
