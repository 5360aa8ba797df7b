-- ===== src/Handler/Monitors/Panic.antt =====
-- A negative number of retries: the request goes through, and the check panics.
use hivepulse.Prelude.{
  ℕ, String, ◌==◌, ◌≡◌, refl, Bool, true, false, none, some, List, [], ◌∷◌, ◌++◌, any, find, ℤ,
  ltb_ℤ, arith, eq_iff,
}
use hivepulse.Domain.{Monitor, Heartbeat}
use hivepulse.World.{World, first_id}
use hivepulse.Repo.Monitors
use hivepulse.Repo.Monitors.{fits_columns, known_check_type, has_monitor}
use hivepulse.Usecase.Monitor.{SchedulerService, req_to_monitor}
use hivepulse.Usecase.Monitor.Valid.{IsValid}
use hivepulse.Usecase.Checker.{Checkers, run_check}
use hivepulse.Usecase.Checker.Gaps.{run_check-eq-none_iff}
use hivepulse.Handler.Monitors.{MonitorWriteRequest, to_monitor_request, create}
use hivepulse.Handler.Monitors.Answers.{with_new, valid_bound, stored_request, create_answers}

find-last :
    (m : Monitor) (id : String) (ms : List Monitor)
    → m.id ≡ id
    → any (λ x. x.id == id) ms ≡ false
    → find (λ x. x.id == id) (ms ++ m ∷ []) ≡ some m
find-last m id [] e h = ground (arith, eq_iff m.id id)
find-last m id (x ∷ ms) e h = ground (arith, find-last m id ms e)

module _ (scheduler : SchedulerService) where
  open scheduler use {Jobs}

  -- From the request to the crash: a valid request for an enabled monitor with a negative number of
  -- retries, which the columns take, is answered 201, and the first check of the new monitor panics, if the
  -- database works, the id that it generates is new, and the type of check has a checker.
  pub negative_retries_panic :
      (user_id : String) (req : MonitorWriteRequest) (w : World) (jobs : Jobs) (cs : Checkers)
      (notifies : Bool) (check : ℕ → Monitor → Heartbeat)
      → w.faults ≡ []
      → any (λ u. u.id == user_id) w.db.users ≡ true
      → has_monitor w.db (first_id w.fresh) ≡ false
      → IsValid (to_monitor_request req)
      → fits_columns (req_to_monitor user_id (to_monitor_request req)) ≡ true
      → req.enabled ≡ some true
      → ltb_ℤ req.retries (ℤ.pos 0) ≡ true
      → cs req.check_type ≡ some check
      → ((create scheduler user_id (some req) w jobs).0 ≡ 201)
        × (run_check cs notifies (first_id w.fresh) (create scheduler user_id (some req) w jobs).1
            ≡ none)
  unfolding create to_monitor_request req_to_monitor Monitors.to_model
  negative_retries_panic user_id req w jobs cs notifies check calm user new v fits on negative
        typed =
      let m : Monitor =
        Monitors.to_model (first_id w.fresh) w.now
          (req_to_monitor user_id (to_monitor_request req)) in
      (
        (create_answers scheduler user_id req w jobs calm user).1 (v, fits),
        rw
            (
              valid_bound req v,
              (stored_request scheduler user_id (to_monitor_request req) w jobs calm user v fits).1,
            )
            ((run_check-eq-none_iff cs notifies (first_id w.fresh) m
                (with_new (req_to_monitor user_id (to_monitor_request req)) w) check calm
                (find-last m (first_id w.fresh) w.db.monitors refl new) (rw on refl) typed).1
              negative),
      )
