-- ===== src/Usecase/Pages/Keyed.antt =====
-- Requests on pages keep the ids and the slugs of the pages distinct.
use mathlib.Core.Path.{subst}
use hivepulse.Prelude.{
  String, ◌==◌, ◌≡◌, sym, Bool, true, false, not, ◌&&◌, List, [], ◌∷◌, find, trim_space, inl, inr,
  Bool-cases,
}
use hivepulse.Domain.{Result, ok, err, StatusPage}
use hivepulse.World.{World, fetch-db}
use hivepulse.Repo.Monitors.{found_or}
use hivepulse.Repo.Pages
use hivepulse.Repo.Pages.Slugs.{
  IsKeyed, same-IsKeyed, create-IsKeyed, delete-IsKeyed, update_page-IsKeyed, set_tags-pages,
}
use hivepulse.Usecase.Pages.{
  or_generated, StatusPageRequest, tagged_page, create_unless, create_page, after_update,
  write_edited, edit_unless, edit_found, update_page, delete_found, delete_page,
}

pub slug_exists-db :
    (slug exclude : String) (w : World) → (Pages.slug_exists slug exclude w).1.db ≡ w.db
unfolding Pages.slug_exists
slug_exists-db slug exclude w = fetch-db (Pages.count_slug slug exclude) w

pub find_by_id-db : (id : String) (w : World) → (Pages.find_by_id id w).1.db ≡ w.db
unfolding Pages.find_by_id
find_by_id-db id w = fetch-db (λ d. found_or (find (λ p. p.id == id) d.pages)) w

abbrev pub Keyed : World → Type 0
Keyed w = IsKeyed w.db

pub set_tags-Keyed :
    (id : String) (tags : List String) (w : World) → Keyed w → Keyed (Pages.set_tags id tags w).1
set_tags-Keyed id tags w k = same-IsKeyed (set_tags-pages id tags w) k

tagged-Keyed :
    (tags : List String) (r : Result StatusPage) (w : World)
    → Keyed w
    → Keyed (tagged_page tags r w).1
tagged-Keyed tags (err e) w k = k
tagged-Keyed [] (ok sp) w k = k
tagged-Keyed (t ∷ ts) (ok sp) w k = set_tags-Keyed sp.id (t ∷ ts) w k

create_unless-Keyed :
    (taken : Bool) (req : StatusPageRequest) (slug : String) (w : World)
    → Keyed w
    → Keyed (create_unless taken req slug w).1
create_unless-Keyed true req slug w k = k
create_unless-Keyed false req slug w k = tagged-Keyed req.tag_ids _ _ (create-IsKeyed _ w k)

create_page-Keyed :
    (generated : String) (req : StatusPageRequest) (w : World)
    → IsKeyed w.db
    → IsKeyed (create_page generated req w).1.db
unfolding create_page
create_page-Keyed generated req w k = elim (Bool-cases (trim_space req.title == "")) [
  | inl blank ↦ rw blank k
  | inr named ↦ rw named (
      create_unless-Keyed _ req _ _
        (subst IsKeyed (sym (slug_exists-db (or_generated req.slug generated) "" w)) k))
]

after-Keyed :
    (sp : StatusPage) (r : Result (Unit {0})) (w : World) → Keyed w → Keyed (after_update sp r w).1
after-Keyed sp (err e) w k = k
after-Keyed sp (ok u) w k = set_tags-Keyed sp.id sp.tag_ids w k

write_edited-Keyed :
    (req : StatusPageRequest) (slug : String) (sp : StatusPage) (w : World)
    → Keyed w
    → Keyed (write_edited req slug sp w).1
write_edited-Keyed req slug sp w k = after-Keyed _ _ _ (update_page-IsKeyed _ w k)

edit_unless-Keyed :
    (taken : Bool) (req : StatusPageRequest) (sp : StatusPage) (w : World)
    → Keyed w
    → Keyed (edit_unless taken req sp w).1
edit_unless-Keyed true req sp w k = k
edit_unless-Keyed false req sp w k = write_edited-Keyed req req.slug sp w k

edit_found-Keyed :
    (id : String) (req : StatusPageRequest) (r : Result StatusPage) (w : World)
    → Keyed w
    → Keyed (edit_found id req r w).1
edit_found-Keyed id req (err e) w k = k
edit_found-Keyed id req (ok sp) w k =
    elim (Bool-cases (not (req.slug == "") && not (req.slug == sp.slug))) [
      | inl changed ↦
          rw changed
            (edit_unless-Keyed _ req sp _ (subst IsKeyed (sym (slug_exists-db req.slug id w)) k))
      | inr same ↦ rw same (write_edited-Keyed req sp.slug sp w k)
    ]

update_page-Keyed :
    (id : String) (req : StatusPageRequest) (w : World)
    → IsKeyed w.db
    → IsKeyed (update_page id req w).1.db
unfolding update_page
update_page-Keyed id req w k =
    edit_found-Keyed id req _ _ (subst IsKeyed (sym (find_by_id-db id w)) k)

delete_found-Keyed :
    (id : String) (r : Result StatusPage) (w : World) → Keyed w → Keyed (delete_found id r w).1
delete_found-Keyed id (err e) w k = k
delete_found-Keyed id (ok sp) w k = delete-IsKeyed id w k

delete_page-Keyed : (id : String) (w : World) → Keyed w → Keyed (delete_page id w).1
unfolding delete_page
delete_page-Keyed id w k = delete_found-Keyed id _ _ (subst IsKeyed (sym (find_by_id-db id w)) k)

-- A request that changes pages; `creates` has the slug that is generated.
pub data PageRequest : Type 0 where
  creates : String → StatusPageRequest → PageRequest
  updates : String → StatusPageRequest → PageRequest
  deletes : String → PageRequest

abbrev run : PageRequest → World → World
run (creates generated req) w = (create_page generated req w).1
run (updates id req) w = (update_page id req w).1
run (deletes id) w = (delete_page id w).1

abbrev run_all : List PageRequest → World → World
run_all [] w = w
run_all (r ∷ rs) w = run_all rs (run r w)

run-Keyed : (r : PageRequest) (w : World) → Keyed w → Keyed (run r w)
run-Keyed (creates generated req) w k = create_page-Keyed generated req w k
run-Keyed (updates id req) w k = update_page-Keyed id req w k
run-Keyed (deletes id) w k = delete_page-Keyed id w k

-- Whatever requests to create, update and delete status pages come, in any order, whatever the random
-- slugs are and whichever statements of the database fail: if no two pages had one id or one slug, then
-- none do afterwards.
run_all-IsKeyed : (rs : List PageRequest) (w : World) → IsKeyed w.db → IsKeyed (run_all rs w).db
run_all-IsKeyed [] w k = k
run_all-IsKeyed (r ∷ rs) w k = run_all-IsKeyed rs (run r w) (run-Keyed r w k)
