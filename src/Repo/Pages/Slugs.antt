-- ===== src/Repo/Pages/Slugs.antt =====
-- The slugs of the pages stay distinct, by the UNIQUE column.
use mathlib.Core.Path.{subst}
use hivepulse.Prelude.{
  not, String, ◌==◌, ◌≡◌, refl, sym, ap, ◌∙◌, Bool-cases, inl, inr, true, false, ◌&&◌, ◌||◌, List,
  [], update_none, any, update, arith, distinct_on, distinct_on-snoc, distinct_on-select,
  distinct_on-update_kept, distinct_on-update_set,
}
use hivepulse.Domain.{ok, Time, StatusPage}
use hivepulse.World.{Db, World, query-cases, first_id, later_ids}
use hivepulse.Repo.Pages
use hivepulse.Repo.Pages.{insert_page, without_page, updated_page, taken, write_page, write_links}

abbrev page_id : StatusPage → String
page_id p = p.id

abbrev page_slug : StatusPage → String
page_slug p = p.slug

-- No two pages have one id, or one slug.
pub record IsKeyed (d : Db) : Type 0 where
  pub ids : distinct_on page_id d.pages ≡ true
  pub slugs : distinct_on page_slug d.pages ≡ true

-- An operation that does not touch the pages.
pub same-IsKeyed : {d d' : Db} → d'.pages ≡ d.pages → IsKeyed d → IsKeyed d'
same-IsKeyed e k = record {
  ids = ap (distinct_on page_id) e ∙ k.ids;
  slugs = ap (distinct_on page_slug) e ∙ k.slugs;
}

inserted :
    (sp : StatusPage) (now : Time) (id : String) (d : Db)
    → IsKeyed d
    → IsKeyed (insert_page sp now id d).1
inserted sp now id d k =
    elim (Bool-cases (any (λ p. p.id == id) d.pages || any (λ p. p.slug == sp.slug) d.pages)) [
      | inl clash ↦ rw clash k
      | inr free ↦
          let row : StatusPage = record sp {
            id = id;
            tag_ids = [];
            created_at = now;
            updated_at = now;
          } in
          rw free (record {
            ids = distinct_on-snoc page_id row d.pages (ground arith) k.ids;
            slugs = distinct_on-snoc page_slug row d.pages (ground arith) k.slugs;
          })
    ]

pub create-IsKeyed : (sp : StatusPage) (w : World) → IsKeyed w.db → IsKeyed (Pages.create sp w).1.db
unfolding Pages.create
create-IsKeyed sp w k =
    elim (query-cases (insert_page sp w.now (first_id w.fresh))
      (record w { fresh = later_ids w.fresh })) [
        | inl (m, failed, same) ↦ subst IsKeyed (sym same) k
        | inr (done, same) ↦ subst IsKeyed (sym same) (inserted sp w.now (first_id w.fresh) w.db k)
      ]

written :
    (now : Time) (sp : StatusPage) (d : Db)
    → taken d sp.slug sp.id ≡ false
    → IsKeyed d
    → IsKeyed (record d { pages = update (λ p. p.id == sp.id) (updated_page now sp) d.pages })
written now sp d free k = record {
  ids =
      distinct_on-update_kept page_id (λ p. p.id == sp.id) (updated_page now sp) (λ p. refl) d.pages
      ∙ k.ids;
  slugs =
      distinct_on-update_set page_id page_slug (updated_page now sp) sp.id sp.slug (λ p. refl)
        d.pages k.ids k.slugs free;
}

write_page-IsKeyed :
    (now : Time) (sp : StatusPage) (d : Db) → IsKeyed d → IsKeyed (write_page now sp d).1
write_page-IsKeyed now sp d k =
    elim (Bool-cases (any (λ p. p.id == sp.id) d.pages && taken d sp.slug sp.id)) [
      | inl clash ↦ rw clash k
      | inr passed ↦ elim (Bool-cases (taken d sp.slug sp.id)) [
        | inl held ↦ rw passed (
            same-IsKeyed
              (update_none (λ p. p.id == sp.id) (updated_page now sp) d.pages (ground arith)) k)
        | inr free ↦ rw passed (written now sp d free k)
      ]
    ]

pub update_page-IsKeyed :
    (sp : StatusPage) (w : World) → IsKeyed w.db → IsKeyed (Pages.update_page sp w).1.db
unfolding Pages.update_page
update_page-IsKeyed sp w k = elim (query-cases {0} (write_page w.now sp) w) [
  | inl (m, failed, same) ↦ subst IsKeyed (sym same) k
  | inr (done, same) ↦ subst IsKeyed (sym same) (write_page-IsKeyed w.now sp w.db k)
]

pub delete-IsKeyed : (id : String) (w : World) → IsKeyed w.db → IsKeyed (Pages.delete id w).1.db
unfolding Pages.delete
delete-IsKeyed id w k = elim (query-cases {0} (λ d. (ok tt, without_page id d)) w) [
  | inl (m, failed, same) ↦ subst IsKeyed (sym same) k
  | inr (done, same) ↦ subst IsKeyed (sym same) (record {
    ids = distinct_on-select page_id (λ p. not (p.id == id)) w.db.pages k.ids;
    slugs = distinct_on-select page_slug (λ p. not (p.id == id)) w.db.pages k.slugs;
  })
]

pub set_tags-pages :
    (id : String) (tags : List String) (w : World)
    → (Pages.set_tags id tags w).1.db.pages ≡ w.db.pages
unfolding Pages.set_tags
set_tags-pages id tags w = elim (query-cases {0} (write_links id tags) w) [
  | inl (m, failed, same) ↦ ap (λ d. d.pages) same
  | inr (done, same) ↦ ap (λ d. d.pages) same ∙ ground arith
]
