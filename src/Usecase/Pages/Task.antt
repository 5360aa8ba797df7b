-- ===== src/Usecase/Pages/Task.antt =====
-- Requests that change status pages as the sequences of their statements, for requests that overlap. The
-- result says whether the request succeeded.
use hivepulse.Prelude.{
  String, ◌==◌, ◌≡◌, refl, Bool, true, false, not, ◌&&◌, List, [], ◌∷◌, trim_space, Bool-cases, inl,
  inr, if◌then◌else◌,
}
use hivepulse.Domain.{Result, ok, err, is_ok, StatusPage}
use hivepulse.World.{World}
use hivepulse.Tasks.{Task, done, call, run, clock}
use hivepulse.Repo.Pages
use hivepulse.Usecase.Pages.{
  StatusPageRequest, or_generated, page_of_request, tagged_page, create_unless, create_page, edited,
  after_update, write_edited, edit_unless, edit_found, update_page, delete_found, delete_page,
}

abbrev pub tag_task : List String → Result StatusPage → Task Bool
tag_task tags (err e) = done false
tag_task [] (ok sp) = done true
tag_task (t ∷ ts) (ok sp) = call (Pages.set_tags sp.id (t ∷ ts)) λ r. done true

abbrev pub unless_taken : StatusPageRequest → String → Bool → Task Bool
unless_taken req slug true = done false
unless_taken req slug false = call (Pages.create (page_of_request req slug)) (tag_task req.tag_ids)

-- `StatusPageUsecase.Create`
unfoldable pub create_task : String → StatusPageRequest → Task Bool
create_task generated req =
    if trim_space req.title == ""
    then done false
    else call (Pages.slug_exists (or_generated req.slug generated) "")
        (unless_taken req (or_generated req.slug generated))

abbrev pub retag_task : StatusPage → Result (Unit {0}) → Task Bool
retag_task sp (err e) = done false
retag_task sp (ok u) = call (Pages.set_tags sp.id sp.tag_ids) λ r. done true

abbrev pub write_task : StatusPageRequest → String → StatusPage → Task Bool
write_task req slug sp =
    call clock
      λ now. call (Pages.update_page (edited now req slug sp)) (retag_task (edited now req slug sp))

abbrev pub write_unless : StatusPageRequest → StatusPage → Bool → Task Bool
write_unless req sp true = done false
write_unless req sp false = write_task req req.slug sp

abbrev pub edit_task : String → StatusPageRequest → Result StatusPage → Task Bool
edit_task id req (err e) = done false
edit_task id req (ok sp) =
    if not (req.slug == "") && not (req.slug == sp.slug)
    then call (Pages.slug_exists req.slug id) (write_unless req sp)
    else write_task req sp.slug sp

-- `StatusPageUsecase.Update`
unfoldable pub update_task : String → StatusPageRequest → Task Bool
update_task id req = call (Pages.find_by_id id) (edit_task id req)

abbrev pub drop_task : String → Result StatusPage → Task Bool
drop_task id (err e) = done false
drop_task id (ok sp) = call (Pages.delete id) λ r. done (is_ok r)

-- `StatusPageUsecase.Delete`
unfoldable pub delete_task : String → Task Bool
delete_task id = call (Pages.find_by_id id) (drop_task id)

-- The outcome of an operation, without its value.
abbrev outcome : {A : Type 0} → Result A × World → Bool × World
outcome (r, w) = (is_ok r, w)

tag_lem :
    (tags : List String) (r : Result StatusPage) (w : World)
    → run (tag_task tags r) w ≡ outcome (tagged_page tags r w)
unfolding run
tag_lem [] (err e) w = refl
tag_lem (t ∷ ts) (err e) w = refl
tag_lem [] (ok sp) w = refl
tag_lem (t ∷ ts) (ok sp) w = refl

unless_lem :
    (req : StatusPageRequest) (slug : String) (taken : Bool) (w : World)
    → run (unless_taken req slug taken) w ≡ outcome (create_unless taken req slug w)
unfolding run
unless_lem req slug true w = refl
unless_lem req slug false w = tag_lem req.tag_ids _ _

-- Statement by statement, a request that runs alone does what the usecase says.
pub create_task-run :
    (generated : String) (req : StatusPageRequest) (w : World)
    → run (create_task generated req) w ≡ outcome (create_page generated req w)
unfolding run create_task create_page
create_task-run generated req w = elim (Bool-cases (trim_space req.title == "")) [
  | inl blank ↦ rw blank refl
  | inr named ↦ rw named (unless_lem req (or_generated req.slug generated) _ _)
]

retag_lem :
    (sp : StatusPage) (r : Result (Unit {0})) (w : World)
    → run (retag_task sp r) w ≡ outcome (after_update sp r w)
unfolding run
retag_lem sp (err e) w = refl
retag_lem sp (ok u) w = refl

write_lem :
    (req : StatusPageRequest) (slug : String) (sp : StatusPage) (w : World)
    → run (write_task req slug sp) w ≡ outcome (write_edited req slug sp w)
unfolding run
write_lem req slug sp w = retag_lem (edited w.now req slug sp) _ _

write_unless_lem :
    (req : StatusPageRequest) (sp : StatusPage) (taken : Bool) (w : World)
    → run (write_unless req sp taken) w ≡ outcome (edit_unless taken req sp w)
unfolding run
write_unless_lem req sp true w = refl
write_unless_lem req sp false w = write_lem req req.slug sp w

edit_lem :
    (id : String) (req : StatusPageRequest) (r : Result StatusPage) (w : World)
    → run (edit_task id req r) w ≡ outcome (edit_found id req r w)
unfolding run
edit_lem id req (err e) w = refl
edit_lem id req (ok sp) w = elim (Bool-cases (not (req.slug == "") && not (req.slug == sp.slug))) [
  | inl changed ↦ rw changed (write_unless_lem req sp _ _)
  | inr same ↦ rw same (write_lem req sp.slug sp w)
]

pub update_task-run :
    (id : String) (req : StatusPageRequest) (w : World)
    → run (update_task id req) w ≡ outcome (update_page id req w)
unfolding run update_task update_page
update_task-run id req w = edit_lem id req _ _

drop_lem :
    (id : String) (r : Result StatusPage) (w : World)
    → run (drop_task id r) w ≡ outcome (delete_found id r w)
unfolding run
drop_lem id (err e) w = refl
drop_lem id (ok sp) w = refl

pub delete_task-run :
    (id : String) (w : World) → run (delete_task id) w ≡ outcome (delete_page id w)
unfolding run delete_task delete_page
delete_task-run id w = drop_lem id _ _
