-- ===== src/Infra/Scheduler/InStep.antt =====
-- The map of jobs and the table of the cron agree: a monitor has at most one entry, and the map holds
-- its id.
use hivepulse.Prelude.{
  ℕ, String, ◌==◌, ◌≡◌, refl, Bool, true, false, not, Option, none, some, List, [], ◌∷◌, ◌++◌, any,
  select, eqb, lookup, lookup-put, lookup-delete_key, Option-cases, Bool-cases, inl, inr, arith,
  eq_iff, eq_refl, if◌then◌else◌,
}
use hivepulse.Domain.{Monitor}
use hivepulse.Infra.Scheduler.{CronEntry, has_id, Cron, Scheduler, add, remove, update}

abbrev pub runs : String → CronEntry → Bool
runs id e = e.runs == id

abbrev pub listed : Option ℕ → List ℕ
listed none = []
listed (some k) = k ∷ []

-- The ids of the entries that check a monitor.
abbrev pub ids_of : String → List CronEntry → List ℕ
ids_of id [] = []
ids_of id (e ∷ es) = let rest = ids_of id es in if runs id e then e.id ∷ rest else rest

pub ids_of-append :
    (id : String) (es fs : List CronEntry) → ids_of id (es ++ fs) ≡ ids_of id es ++ ids_of id fs
ids_of-append id [] fs = refl
ids_of-append id (e ∷ es) fs = ground (arith, ids_of-append id es fs)

abbrev pub has : ℕ → List ℕ → Bool
has k ks = any (λ j. eqb j k) ks

unfoldable pub without : ℕ → List ℕ → List ℕ
without k ks = select (λ j. not (eqb j k)) ks

pub ids_of-remove :
    (id : String) (k : ℕ) (es : List CronEntry)
    → ids_of id (select (λ e. not (has_id k e)) es) ≡ without k (ids_of id es)
unfolding without
ids_of-remove id k [] = refl
ids_of-remove id k (e ∷ es) = ground (arith, ids_of-remove id k es)

module _ (cron : Cron) where
  open cron use {Table, entries, add_func, remove_id}

  -- No two monitors have one id, and the map of jobs lists what the cron runs.
  pub record InStep (s : Scheduler cron) : Type 0 where
    pub agree : (id : String) → ids_of id (entries s.cron_table) ≡ listed (lookup id s.jobs)
    pub distinct :
        (id j : String) (k : ℕ) → lookup id s.jobs ≡ some k → lookup j s.jobs ≡ some k → id ≡ j

  pub remove-InStep : (id : String) {s : Scheduler cron} → InStep s → InStep (remove cron id s)
  unfolding remove
  remove-InStep id {s} h = elim (Option-cases (lookup id s.jobs)) [
    | inl absent ↦ rw absent (record { agree = h.agree; distinct = h.distinct })
    | inr (k, found) ↦ rw found (record {
      agree = λ j.
          rw
            (
              cron.entries-remove_id k s.cron_table,
              ids_of-remove j k (entries s.cron_table),
              h.agree j,
            )
            (unfold without in
              ground (arith, lookup-delete_key id j s.jobs, h.distinct id j k found, eq_iff id j));
      distinct = λ i j k'.
          ground (
            arith,
            lookup-delete_key id i s.jobs,
            lookup-delete_key id j s.jobs,
            h.distinct i j k',
          );
    })
  ]

  -- A removed monitor has no job left.
  pub lookup-remove : (id : String) (s : Scheduler cron) → lookup id (remove cron id s).jobs ≡ none
  unfolding remove
  lookup-remove id s = ground (arith, lookup-delete_key id id s.jobs, eq_refl id)

  ids_of-has :
      (id : String) (k : ℕ) (es : List CronEntry)
      → has k (ids_of id es) ≡ true
      → any (has_id k) es ≡ true
  ids_of-has id k [] h = h
  ids_of-has id k (e ∷ es) h = ground (arith, ids_of-has id k es)

  -- The id of a new entry is not in the map.
  fresh_in_map :
      (id : String) (k : ℕ) {s : Scheduler cron}
      → InStep s
      → any (has_id k) (entries s.cron_table) ≡ false
      → has k (listed (lookup id s.jobs)) ≡ false
  fresh_in_map id k {s} h fresh = ground (arith, h.agree id, ids_of-has id k (entries s.cron_table))

  pub add-InStep :
      (m : Monitor) {s : Scheduler cron}
      → lookup m.id s.jobs ≡ none
      → InStep s
      → InStep (add cron m s)
  unfolding add
  add-InStep m {s} absent h = elim (Bool-cases m.enabled) [
    | inr off ↦ rw off (record { agree = h.agree; distinct = h.distinct })
    | inl on ↦ rw on (elim (Option-cases (add_func m.interval m.id s.cron_table)) [
      | inl failed ↦ rw failed (record { agree = h.agree; distinct = h.distinct })
      | inr ((k, t), done) ↦
          let fresh = cron.add_func_fresh m.interval m.id s.cron_table k t done in
          rw done (record {
            agree = λ j.
                rw
                  (
                    cron.entries-add_func m.interval m.id s.cron_table k t done,
                    ids_of-append j (entries s.cron_table)
                        (record { id = k; every = m.interval; runs = m.id } ∷ []),
                    h.agree j,
                    lookup-put m.id j k s.jobs,
                  )
                  (ground (arith, eq_iff m.id j));
            distinct = λ i j k'. ground (
              arith,
              lookup-put m.id i k s.jobs,
              lookup-put m.id j k s.jobs,
              h.distinct i j k',
              fresh_in_map i k h fresh,
              fresh_in_map j k h fresh,
              eq_iff m.id i,
              eq_iff m.id j,
            );
          })
    ])
  ]

  remove_other :
      (id j : String) (s : Scheduler cron)
      → (id == j) ≡ false
      → lookup j (remove cron id s).jobs ≡ lookup j s.jobs
  unfolding remove
  remove_other id j s h = ground (arith, lookup-delete_key id j s.jobs)

  add_other :
      (m : Monitor) (j : String) (s : Scheduler cron)
      → (m.id == j) ≡ false
      → lookup j (add cron m s).jobs ≡ lookup j s.jobs
  unfolding add
  add_other m j s h = elim (Option-cases (add_func m.interval m.id s.cron_table)) [
    | inl failed ↦ ground arith
    | inr ((k, t), done) ↦ ground (arith, lookup-put m.id j k s.jobs)
  ]

  -- `Update` keeps the map and the cron in step: if each monitor had the one entry that the map names,
  -- or none if it names none, then so it is afterwards, whether the monitor is enabled or not and whether
  -- the cron takes it or not.
  pub update-InStep : (m : Monitor) (s : Scheduler cron) → InStep s → InStep (update cron m s)
  unfolding update
  update-InStep m s h =
      let s1 : Scheduler cron = remove cron m.id s in
      let h1 : InStep s1 = remove-InStep m.id h in
      let h2 : InStep (add cron m s1) = add-InStep m (lookup-remove m.id s) h1 in
      elim m.enabled as (λ b. InStep (if b then add cron m s1 else s1)) [ true ↦ h2 | false ↦ h1 ]

  -- `Update` leaves the jobs of the other monitors as they were.
  pub update_spares :
      (m : Monitor) (j : String) (s : Scheduler cron)
      → (m.id == j) ≡ false
      → lookup j (update cron m s).jobs ≡ lookup j s.jobs
  unfolding update
  update_spares m j s ne =
      ground (arith, add_other m j (remove cron m.id s) ne, remove_other m.id j s ne)
