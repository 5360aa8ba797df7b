-- ===== src/Usecase/Tag/Overlap.antt =====
-- Requests for tags that overlap, as the sequences of their statements.
use mathlib.Core.Path.{subst}
use hivepulse.Prelude.{
  ℕ, String, ◌==◌, ◌≡◌, refl, sym, inl, inr, Bool, Bool-cases, true, false, not, List, [], ◌∷◌,
  find, select, map, All, arith, trim_space, any-select, if◌then◌else◌,
}
use hivepulse.Domain.{Result, ok, err, is_ok, Tag}
use hivepulse.World.{World, query-cases, fetch-db}
use hivepulse.Tasks.{Task, done, call, run, Keeps, weave, weave-Keeps}
use hivepulse.Repo.Monitors.{found_or}
use hivepulse.Repo.Tags
use hivepulse.Repo.Tags.{without_tag}
use hivepulse.Usecase.Tag.{is_hex_color, new_tag, create_tag, delete_found, delete_tag}
use hivepulse.Usecase.Tag.Valid.{fits, distinct_names, IsTagged, created}

abbrev named_task : String → String → Task Bool
named_task name color =
    if name == ""
    then done false
    else if is_hex_color color
    then call (Tags.create (new_tag name color)) (λ r. done (is_ok r))
    else done false

-- `TagUsecase.Create`
unfoldable pub create_task : String → String → Task Bool
create_task name color = named_task (trim_space name) color

abbrev drop_task : String → Result Tag → Task Bool
drop_task id (err e) = done false
drop_task id (ok t) = call (Tags.delete id) (λ r. done (is_ok r))

-- `TagUsecase.Delete`
unfoldable pub delete_task : String → Task Bool
delete_task id = call (Tags.find_by_id id) (drop_task id)

-- The outcome of a request, without its value.
abbrev outcome : {A : Type 0} → Result A × World → Bool × World
outcome (r, w) = (is_ok r, w)

-- Statement by statement, a request that runs alone does what the usecase says.
create_task-run :
    (name color : String) (w : World)
    → run (create_task name color) w ≡ outcome (create_tag name color w)
unfolding run create_task create_tag
create_task-run name color w = elim (Bool-cases (trim_space name == "")) [
  | inl empty ↦ rw empty refl
  | inr nonempty ↦ elim (Bool-cases (is_hex_color color)) [
    | inl hex ↦ rw (nonempty, hex) refl
    | inr wrong ↦ rw (nonempty, wrong) refl
  ]
]

drop_lem :
    (id : String) (r : Result Tag) (w : World)
    → run (drop_task id r) w ≡ outcome (delete_found id r w)
unfolding run
drop_lem id (err e) w = refl
drop_lem id (ok t) w = refl

delete_task-run : (id : String) (w : World) → run (delete_task id) w ≡ outcome (delete_tag id w)
unfolding run delete_task delete_tag
delete_task-run id w = drop_lem id _ _

abbrev Tagged : World → Type 0
Tagged w = IsTagged w.db.tags

distinct_names-select :
    (p : Tag → Bool) (l : List Tag) → distinct_names l ≡ true → distinct_names (select p l) ≡ true
distinct_names-select p [] h = refl
distinct_names-select p (t ∷ l) h =
    ground (arith, distinct_names-select p l, any-select p (λ x. x.name == t.name) l)

kept : (p : Tag → Bool) (l : List Tag) → IsTagged l → IsTagged (select p l)
kept p l s = record {
  fitting = any-select p (λ t. not (fits t)) l s.fitting;
  apart = distinct_names-select p l s.apart;
}

deleted : (id : String) (w : World) → Tagged w → Tagged (Tags.delete id w).1
unfolding Tags.delete
deleted id w s = elim (query-cases (λ d. (ok (tt {0}), without_tag id d)) w) [
  | inl (m, failed, same) ↦ subst (λ d. IsTagged d.tags) (sym same) s
  | inr (gone, same) ↦
      subst (λ d. IsTagged d.tags) (sym same) (kept (λ t. not (t.id == id)) w.db.tags s)
]

named-Keeps : (name color : String) → Keeps Tagged (named_task name color)
named-Keeps name color = elim (Bool-cases (name == "")) [
  | inl empty ↦ rw empty tt
  | inr nonempty ↦ elim (Bool-cases (is_hex_color color)) [
    | inl hex ↦ rw (nonempty, hex) (λ w. created (new_tag name color) w (ground arith), λ r. tt)
    | inr wrong ↦ rw (nonempty, wrong) tt
  ]
]

drop-Keeps : (id : String) (r : Result Tag) → Keeps Tagged (drop_task id r)
drop-Keeps id (err e) = tt
drop-Keeps id (ok t) = (deleted id, λ r. tt)

-- A request that changes the tags.
pub data TagRequest : Type 0 where
  creates : String → String → TagRequest
  deletes : String → TagRequest

abbrev pub request_task : TagRequest → Task Bool
request_task (creates name color) = create_task name color
request_task (deletes id) = delete_task id

request-Keeps : (r : TagRequest) → Keeps Tagged (request_task r)
unfolding create_task delete_task Tags.find_by_id
request-Keeps (creates name color) = named-Keeps (trim_space name) color
request-Keeps (deletes id) = (
  λ w s.
      subst (λ d. IsTagged d.tags)
        (sym (fetch-db (λ d. found_or (find (λ t. t.id == id) d.tags)) w)) s,
  drop-Keeps id,
)

requests-Keep : (rs : List TagRequest) → All (Keeps Tagged) (map request_task rs)
requests-Keep [] = tt
requests-Keep (r ∷ rs) = (request-Keeps r, requests-Keep rs)

-- Whatever requests to create and delete tags run at the same time, in whatever order their statements
-- come and whichever of these fail: if each tag in the table has a name of its own that is not empty, and a
-- colour of "#" and six hexadecimal digits, then so it is afterwards.
pub overlapping_requests-IsTagged :
    (rs : List TagRequest) (order : List ℕ) (w : World)
    → IsTagged w.db.tags
    → IsTagged (weave order (map request_task rs) w).1.db.tags
overlapping_requests-IsTagged rs order w s =
    weave-Keeps Tagged order (map request_task rs) w (requests-Keep rs) s
