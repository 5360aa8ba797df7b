-- ===== src/Handler/Monitors/Answers.antt =====
-- How the requests on monitors are answered.
use hivepulse.Prelude.{
  String, ◌==◌, ◌≡◌, ◌≢◌, ◌↔◌, trim_space, refl, ap, ◌∙◌, Bool, true, false, ◌||◌, Option, none,
  some, [], ◌∷◌, ◌++◌, any, ℤ, eqb_ℤ, arith, eq_iff, Bool-cases, inl, inr, ◌⊎◌,
}
use hivepulse.Domain.{Result, is_ok, Result-cases, ok, err, Monitor}
use hivepulse.World.{World, Db, first_id, later_ids}
use hivepulse.Repo.Monitors
use hivepulse.Repo.Monitors.{fits_columns, known_check_type, has_monitor}
use hivepulse.Usecase.Monitor.{
  MonitorRequest, is_valid_interval, SchedulerService, validate, req_to_monitor, create_monitor,
}
use hivepulse.Usecase.Monitor.Valid.{IsValid, HasTarget, http, tcp, ping, dns, validate_iff}
use hivepulse.Handler.Monitors.{
  MonitorWriteRequest, to_monitor_request, bind, create, created, create_bound,
}

abbrev has_user : String → Db → Bool
has_user id d = any (λ u. u.id == id) d.users

-- The tables with the new monitor.
abbrev pub with_new : Monitor → World → World
with_new m w = record w {
  fresh = later_ids w.fresh;
  db = record w.db {
    monitors = w.db.monitors ++ Monitors.to_model (first_id w.fresh) w.now m ∷ [];
  };
}

stored :
    (m : Monitor) (w : World)
    → w.faults ≡ []
    → has_user m.user_id w.db ≡ true
    → known_check_type m.check_type ≡ true
    → fits_columns m ≡ true
    → Monitors.create m w ≡ (ok (first_id w.fresh), with_new m w)
unfolding Monitors.create
stored m w calm user typed fits = rw (calm, user, typed, fits) refl

refused :
    (m : Monitor) (w : World)
    → w.faults ≡ []
    → is_ok (Monitors.create m w).0 ≡ true
    → fits_columns m ≡ true
unfolding Monitors.create
refused m w calm h = elim (Bool-cases (fits_columns m)) [
  | inl fits ↦ fits
  | inr not_fits ↦ ground arith
]

-- A request that passes has a type of check that the table takes.
target_type : (req : MonitorRequest) → HasTarget req → known_check_type req.check_type ≡ true
target_type req (http t u) = rw t refl
target_type req (tcp p t h e lo hi) = rw t refl
target_type req (ping t h) = rw t refl
target_type req (dns t h r) = rw t refl

named_type : (t : String) → known_check_type t ≡ true → (t == "") ≡ false
named_type t h = elim (Bool-cases (t == "")) [
  | inl blank ↦
      let lost : known_check_type t ≡ false = rw ((eq_iff t "").0 blank) refl in ground arith
  | inr named ↦ named
]

timed : (i : ℤ) → is_valid_interval i ≡ true → eqb_ℤ i (ℤ.pos 0) ≡ false
timed (ℤ.pos i) h = ground arith
timed (ℤ.negsuc i) h = refl

trim_nothing : trim_space "" ≡ ""
unfolding trim_space
trim_nothing = refl

named : (name : String) → trim_space name ≢ "" → (name == "") ≡ false
named name h = elim (Bool-cases (name == "")) [
  | inl blank ↦ ground (arith, h (ap trim_space ((eq_iff name "").0 blank) ∙ trim_nothing))
  | inr given ↦ given
]

pub valid_bound :
    (req : MonitorWriteRequest) → IsValid (to_monitor_request req) → bind (some req) ≡ some req
unfolding to_monitor_request
valid_bound req v = ground (
  arith,
  named req.name v.named,
  timed req.interval v.timed,
  named_type req.check_type (target_type (to_monitor_request req) v.target),
)

module _ (scheduler : SchedulerService) where
  open scheduler use {Jobs}

  pub stored_request :
      (user_id : String) (req : MonitorRequest) (w : World) (jobs : Jobs)
      → w.faults ≡ []
      → any (λ u. u.id == user_id) w.db.users ≡ true
      → IsValid req
      → fits_columns (req_to_monitor user_id req) ≡ true
      → ((create_monitor scheduler user_id req w jobs).0 ≡ ok tt)
        × ((create_monitor scheduler user_id req w jobs).1
            ≡ with_new (req_to_monitor user_id req) w)
  unfolding create_monitor req_to_monitor
  stored_request user_id req w jobs calm user v fits =
      let m = req_to_monitor user_id req in
      rw ((validate_iff req).1 v, stored m w calm user (target_type req v.target) fits) (refl, refl)

  invalid_request :
      (user_id : String) (req : MonitorRequest) (w : World) (jobs : Jobs)
      → (create_monitor scheduler user_id req w jobs).0 ≡ ok tt
      → IsValid req
  unfolding create_monitor
  invalid_request user_id req w jobs h = elim (Result-cases (validate req)) [
    | inl (e, failed) ↦ ground arith
    | inr (u, passed) ↦ (validate_iff req).0 passed
  ]

  fitting_request :
      (user_id : String) (req : MonitorRequest) (w : World) (jobs : Jobs)
      → w.faults ≡ []
      → (create_monitor scheduler user_id req w jobs).0 ≡ ok tt
      → fits_columns (req_to_monitor user_id req) ≡ true
  unfolding create_monitor
  fitting_request user_id req w jobs calm h =
      let m : Monitor = req_to_monitor user_id req in
      elim (Result-cases (validate req)) [
        | inl (e, failed) ↦ ground arith
        | inr (u, passed) ↦ elim (Result-cases (Monitors.create m w).0) [
          | inl (e, failed) ↦ ground arith
          | inr (id, made) ↦ refused m w calm (rw made refl)
        ]
      ]

  went_through : (r : Result (Unit {0})) → created scheduler r ≡ 201 → r ≡ ok tt
  went_through (ok u) h = refl
  went_through (err e) h = ground arith

  -- What a request must be like to be answered 201.
  abbrev Accepted : String → MonitorRequest → Type 0
  Accepted user_id req = IsValid req × (fits_columns (req_to_monitor user_id req) ≡ true)

  bound-Accepted :
      (user_id : String) (body : Option MonitorWriteRequest) (req : MonitorWriteRequest) (w : World)
      (jobs : Jobs)
      → w.faults ≡ []
      → (body ≡ none) ⊎ (body ≡ some req)
      → (create_bound scheduler user_id body w jobs).0 ≡ 201
      → Accepted user_id (to_monitor_request req)
  bound-Accepted user_id none req w jobs calm e h = ground arith
  bound-Accepted user_id (some x) req w jobs calm (inl e) h = cc
  bound-Accepted user_id (some x) req w jobs calm (inr e) h =
      let same : x ≡ req = cc in
      let went =
        went_through (create_monitor scheduler user_id (to_monitor_request x) w jobs).0 h in
      rw (← same) (
        invalid_request user_id (to_monitor_request x) w jobs went,
        fitting_request user_id (to_monitor_request x) w jobs calm went,
      )

  bound : (req : MonitorWriteRequest) → (bind (some req) ≡ none) ⊎ (bind (some req) ≡ some req)
  bound req =
      elim (Bool-cases (req.name == "" || req.check_type == "" || eqb_ℤ req.interval (ℤ.pos 0))) [
        | inl lacking ↦ inl (rw lacking refl)
        | inr given ↦ inr (rw given refl)
      ]

  -- If the database works and the user of the token is stored, then a request to create a monitor is
  -- answered 201 exactly when it is valid and the columns take it: the texts have no character of code 0,
  -- name has at most 100 characters and method and record type at most ten, not counting spaces after these,
  -- and the numbers have 32 bits, with the defaults filled in. No other constraint of the table refuses a
  -- valid request.
  pub create_answers :
      (user_id : String) (req : MonitorWriteRequest) (w : World) (jobs : Jobs)
      → w.faults ≡ []
      → any (λ u. u.id == user_id) w.db.users ≡ true
      → ((create scheduler user_id (some req) w jobs).0 ≡ 201) ↔ (
          IsValid (to_monitor_request req)
          × (fits_columns (req_to_monitor user_id (to_monitor_request req)) ≡ true))
  unfolding create
  create_answers user_id req w jobs calm user = (
    λ h. bound-Accepted user_id (bind (some req)) req w jobs calm (bound req) h,
    λ (v, fits).
        rw
          (
            valid_bound req v,
            (stored_request user_id (to_monitor_request req) w jobs calm user v fits).0,
          )
          refl,
  )
