-- ===== src/Usecase/Pages/Overlap.antt =====
-- Requests on status pages that overlap: two of them may find one slug free, and then the UNIQUE column
-- refuses the second.
use mathlib.Core.Path.{subst}
use hivepulse.Prelude.{
  ℕ, String, ◌==◌, sym, Bool, true, false, not, ◌&&◌, List, [], ◌∷◌, map, All, trim_space,
  if◌then◌else◌,
}
use hivepulse.Domain.{Result, ok, err, StatusPage}
use hivepulse.World.{World}
use hivepulse.Tasks.{Task, done, call, Keeps, weave, weave-Keeps}
use hivepulse.Repo.Pages
use hivepulse.Repo.Pages.Slugs.{IsKeyed, create-IsKeyed, delete-IsKeyed, update_page-IsKeyed}
use hivepulse.Usecase.Pages.{StatusPageRequest, or_generated, page_of_request, edited}
use hivepulse.Usecase.Pages.Keyed.{
  Keyed, PageRequest, creates, updates, deletes, slug_exists-db, find_by_id-db, set_tags-Keyed,
}
use hivepulse.Usecase.Pages.Task.{
  tag_task, unless_taken, create_task, retag_task, write_task, write_unless, edit_task, update_task,
  drop_task, delete_task,
}

exists-Keyed :
    (slug exclude : String) (w : World) → Keyed w → Keyed (Pages.slug_exists slug exclude w).1
exists-Keyed slug exclude w k = subst IsKeyed (sym (slug_exists-db slug exclude w)) k

find-Keyed : (id : String) (w : World) → Keyed w → Keyed (Pages.find_by_id id w).1
find-Keyed id w k = subst IsKeyed (sym (find_by_id-db id w)) k

if-Keeps :
    (c : Bool) (t u : Task Bool) → Keeps Keyed t → Keeps Keyed u → Keeps Keyed (if c then t else u)
if-Keeps true t u kt ku = kt
if-Keeps false t u kt ku = ku

tag-Keeps : (tags : List String) (r : Result StatusPage) → Keeps Keyed (tag_task tags r)
tag-Keeps [] (err e) = tt
tag-Keeps (t ∷ ts) (err e) = tt
tag-Keeps [] (ok sp) = tt
tag-Keeps (t ∷ ts) (ok sp) = (set_tags-Keyed sp.id (t ∷ ts), λ r. tt)

unless-Keeps :
    (req : StatusPageRequest) (slug : String) (taken : Bool)
    → Keeps Keyed (unless_taken req slug taken)
unless-Keeps req slug true = tt
unless-Keeps req slug false = (create-IsKeyed (page_of_request req slug), tag-Keeps req.tag_ids)

create-Keeps :
    (generated : String) (req : StatusPageRequest) → Keeps Keyed (create_task generated req)
unfolding create_task
create-Keeps generated req =
    let slug = or_generated req.slug generated in
    if-Keeps (trim_space req.title == "") (done false)
      (call (Pages.slug_exists slug "") (unless_taken req slug)) tt
      (exists-Keyed slug "", unless-Keeps req slug)

retag-Keeps : (sp : StatusPage) (r : Result (Unit {0})) → Keeps Keyed (retag_task sp r)
retag-Keeps sp (err e) = tt
retag-Keeps sp (ok u) = (set_tags-Keyed sp.id sp.tag_ids, λ r. tt)

write-Keeps :
    (req : StatusPageRequest) (slug : String) (sp : StatusPage)
    → Keeps Keyed (write_task req slug sp)
write-Keeps req slug sp = (
  λ w k. k,
  λ now. (update_page-IsKeyed (edited now req slug sp), retag-Keeps (edited now req slug sp)),
)

write_unless-Keeps :
    (req : StatusPageRequest) (sp : StatusPage) (taken : Bool)
    → Keeps Keyed (write_unless req sp taken)
write_unless-Keeps req sp true = tt
write_unless-Keeps req sp false = write-Keeps req req.slug sp

edit-Keeps :
    (id : String) (req : StatusPageRequest) (r : Result StatusPage)
    → Keeps Keyed (edit_task id req r)
edit-Keeps id req (err e) = tt
edit-Keeps id req (ok sp) =
    if-Keeps (not (req.slug == "") && not (req.slug == sp.slug))
      (call (Pages.slug_exists req.slug id) (write_unless req sp)) (write_task req sp.slug sp)
      (exists-Keyed req.slug id, write_unless-Keeps req sp) (write-Keeps req sp.slug sp)

drop-Keeps : (id : String) (r : Result StatusPage) → Keeps Keyed (drop_task id r)
drop-Keeps id (err e) = tt
drop-Keeps id (ok sp) = (delete-IsKeyed id, λ r. tt)

-- What a request does.
abbrev pub request_task : PageRequest → Task Bool
request_task (creates generated req) = create_task generated req
request_task (updates id req) = update_task id req
request_task (deletes id) = delete_task id

request-Keeps : (r : PageRequest) → Keeps Keyed (request_task r)
unfolding update_task delete_task
request-Keeps (creates generated req) = create-Keeps generated req
request-Keeps (updates id req) = (find-Keyed id, edit-Keeps id req)
request-Keeps (deletes id) = (find-Keyed id, drop-Keeps id)

requests-Keep : (rs : List PageRequest) → All (Keeps Keyed) (map request_task rs)
requests-Keep [] = tt
requests-Keep (r ∷ rs) = (request-Keeps r, requests-Keep rs)

-- Whatever requests to create, update and delete status pages run at the same time, in whatever order
-- their statements come, whatever the random slugs are and whichever statements of the database fail: if
-- no two pages had one id or one slug, then none do afterwards.
pub overlapping_requests-IsKeyed :
    (rs : List PageRequest) (order : List ℕ) (w : World)
    → IsKeyed w.db
    → IsKeyed (weave order (map request_task rs) w).1.db
overlapping_requests-IsKeyed rs order w k =
    weave-Keeps Keyed order (map request_task rs) w (requests-Keep rs) k
