-- ===== src/Usecase/Pages/Reveals.antt =====
-- Which incidents a public page shows.
use hivepulse.Prelude.{
  String, ◌==◌, ◌≡◌, refl, sym, ◌∙◌, Bool, true, ◌&&◌, some, List, [], ◌∷◌, any, all, select,
  any-find, any-imp, all_self, all-where, find, eqb, eq_iff, eq_refl, arith, Bool-cases, inl, inr,
  ◌⊎◌,
}
use hivepulse.Domain.{Incident, Monitor, StatusPage, PublicIncident}
use hivepulse.Repo.Monitors.{linked}
use hivepulse.Repo.Monitors
use hivepulse.Repo.Pages
use hivepulse.Repo.Pages.{tags_of}
use hivepulse.Usecase.Pages.{or_empty}
use hivepulse.World.{Db, World, TagLink, query-cases}
use hivepulse.Usecase.Pages.Public.{
  monitors_tagged, shown, public_active, public_resolved, actives, resolveds,
}

-- A monitor carries a tag of the page.
abbrev pub on_page : Db → String → String → Bool
on_page d page monitor =
    any (λ l. l.owner_id == page && any (linked monitor l.tag_id) d.monitor_tags) d.page_tags

-- A page with the slug has the monitor.
abbrev pub on_slug : Db → String → String → Bool
on_slug d slug monitor = any (λ p. p.slug == slug && on_page d p.id monitor) d.pages

-- An incident with the id, the start and the error of the one that is shown.
abbrev pub describes : Incident → PublicIncident → Bool
describes i p = eqb i.id p.id && eqb i.started_at p.started_at && i.error_msg == p.error_msg

-- The page shows a stored incident of one of its monitors.
abbrev pub from_page : Db → String → PublicIncident → Bool
from_page d slug p = any (λ i. describes i p && on_slug d slug i.monitor_id) d.incidents

abbrev alike : Incident → Incident → Bool
alike j i =
    eqb j.id i.id
    && eqb j.started_at i.started_at
    && j.error_msg == i.error_msg
    && j.monitor_id == i.monitor_id

alike_self : (i : Incident) → alike i i ≡ true
alike_self i = ground (arith, eq_refl i.monitor_id, eq_refl i.error_msg)

-- Such an incident is stored.
abbrev pub stored : Db → Incident → Bool
stored d i = any (λ j. alike j i) d.incidents

pub all-stored : (d : Db) → all (stored d) d.incidents ≡ true
all-stored d = all_self alike alike_self d.incidents

-- The monitors of a page.
abbrev pub Shows : Db → String → List Monitor → Type 0
Shows d page ms = all (λ m. on_page d page m.id) ms ≡ true

shown-on_page :
    (d : Db) (page : String) (ms : List Monitor) (i : Incident)
    → Shows d page ms
    → shown ms i ≡ true
    → on_page d page i.monitor_id ≡ true
shown-on_page d page [] i all_on h = cc
shown-on_page d page (m ∷ ms) i all_on h = elim (Bool-cases (m.id == i.monitor_id)) [
  | inl here ↦ rw (← (eq_iff m.id i.monitor_id).0 here) (ground arith)
  | inr there ↦ shown-on_page d page ms i (ground arith) (ground arith)
]

module _ (d : Db) (sp : StatusPage) (slug : String)
    (found : find (λ p. p.slug == slug) d.pages ≡ some sp) where
  revealed :
      (ms : List Monitor) (i : Incident) (p : PublicIncident)
      → Shows d sp.id ms
      → stored d i ≡ true
      → shown ms i ≡ true
      → describes i p ≡ true
      → from_page d slug p ≡ true
  revealed ms i p shows kept here same =
      let on : on_slug d slug i.monitor_id ≡ true =
        any-find (λ p. p.slug == slug) (λ p. on_page d p.id i.monitor_id) sp d.pages found
          (shown-on_page d sp.id ms i shows here) in
      let carried : (j : Incident)
          → alike j i ≡ true
          → (describes j p && on_slug d slug j.monitor_id) ≡ true =
        λ j h.
          rw ((eq_iff j.monitor_id i.monitor_id).0 (ground arith))
            (ground (arith, eq_iff j.error_msg i.error_msg)) in
      any-imp (λ j. alike j i) (λ j. describes j p && on_slug d slug j.monitor_id) carried
        d.incidents kept

  pub all-actives :
      (ms : List Monitor) (is : List Incident)
      → Shows d sp.id ms
      → all (stored d) is ≡ true
      → all (from_page d slug) (actives (select (shown ms) is)) ≡ true
  all-actives ms [] shows kept = refl
  all-actives ms (i ∷ is) shows kept =
      ground
        (arith, all-actives ms is shows, revealed ms i (public_active i) shows, eq_refl i.error_msg)

  pub all-resolveds :
      (is : List Incident)
      → all (λ i. from_page d slug (public_resolved i)) is ≡ true
      → all (from_page d slug) (resolveds is) ≡ true
  all-resolveds [] h = refl
  all-resolveds (i ∷ is) h = ground (arith, all-resolveds is)

  pub all-shown :
      (ms : List Monitor) (is : List Incident)
      → Shows d sp.id ms
      → all (stored d) is ≡ true
      → all (λ i. from_page d slug (public_resolved i)) (select (shown ms) is) ≡ true
  all-shown ms [] shows kept = refl
  all-shown ms (i ∷ is) shows kept =
      ground
        (arith, all-shown ms is shows, revealed ms i (public_resolved i) shows, eq_refl i.error_msg)

-- The monitors that carry one of the tags are those that carry a tag of the page.
pub any-tags_of :
    (monitor page : String) (carried links : List TagLink)
    → any (λ t. any (linked monitor t) carried) (tags_of (select (λ l. l.owner_id == page) links))
      ≡ any (λ l. l.owner_id == page && any (linked monitor l.tag_id) carried) links
any-tags_of monitor page carried [] = refl
any-tags_of monitor page carried (l ∷ ls) = ground (arith, any-tags_of monitor page carried ls)

-- A fault leaves no tag.
pub tags_read :
    (page : String) (w : World)
    → (or_empty (Pages.get_tag_ids page w).0 ≡ [])
      ⊎ (or_empty (Pages.get_tag_ids page w).0
          ≡ tags_of (select (λ l. l.owner_id == page) w.db.page_tags))
unfolding Pages.get_tag_ids
tags_read page w = elim (query-cases {0} {A = List String} (λ d. (Pages.tags_on page d, d)) w) [
  | inl (m, failed, same) ↦ inl (rw failed refl)
  | inr (done, same) ↦ inr (rw done refl)
]

pub monitors_of-Shows :
    (page : String) (tags : List String) (w : World)
    → (tags ≡ []) ⊎ (tags ≡ tags_of (select (λ l. l.owner_id == page) w.db.page_tags))
    → Shows w.db page (monitors_tagged tags w).0
unfolding Monitors.find_by_tag_ids
monitors_of-Shows page [] w h = refl
monitors_of-Shows page (t ∷ ts) w (inl absent) = cc
monitors_of-Shows page (t ∷ ts) w (inr all_tags) =
    let tagged : Monitor → Bool = λ m. any (λ x. any (linked m.id x) w.db.monitor_tags) (t ∷ ts) in
    let on : (m : Monitor) → tagged m ≡ true → on_page w.db page m.id ≡ true =
      λ m h. sym (any-tags_of m.id page w.db.monitor_tags w.db.page_tags) ∙ rw (← all_tags) h in
    elim (query-cases {0} {A = List Monitor} (λ d. (Monitors.with_tags (t ∷ ts) d, d)) w) [
      | inl (m, failed, same) ↦ rw failed refl
      | inr (done, same) ↦ rw done (all-where tagged (λ m. on_page w.db page m.id) on w.db.monitors)
    ]
