-- ===== src/Usecase/Pages/Chosen.antt =====
-- Just which incidents a public page shows, if the database works.
use hivepulse.Prelude.{
  ℕ, String, ◌==◌, ◌≡◌, refl, sym, ap, ◌∙◌, Bool, not, ◌&&◌, some, List, [], ◌∷◌, any, find, select,
  take, map, select_ext, select_never, arith, eq_iff, Bool-cases, inl, inr,
}
use hivepulse.Domain.{ok, Incident, Monitor, StatusPage, Floats, PublicStatusPageData}
use hivepulse.World.{Db, World, fetch_calm}
use hivepulse.Repo.Monitors
use hivepulse.Repo.Monitors.{found_or, has_monitor, linked}
use hivepulse.Repo.Pages
use hivepulse.Repo.Pages.{tags_of}
use hivepulse.Repo.Incidents.{
  with_current_name, is_open, page_rows, listing, find_active, find_resolved,
}
use hivepulse.Repo.Incidents.Listed.{listing_calm}
use hivepulse.Usecase.Pages.{or_empty}
use hivepulse.Usecase.Pages.Public.{
  shown, actives, resolveds, active_shown, resolved_shown, monitors_tagged, rows_of, page_found,
  get_public,
}
use hivepulse.Usecase.Pages.Reveals.{on_page, any-tags_of}
use hivepulse.Usecase.Pages.Calm.{Still, rows_of-Still, monitors_tagged-Still, get_tag_ids-Still}

-- The incident's monitor is stored and carries a tag of the page.
abbrev pub belongs : Db → String → Incident → Bool
belongs d page i = has_monitor d i.monitor_id && on_page d page i.monitor_id

shown_tagged :
    (f : Monitor → Bool) (on : String → Bool) (ms : List Monitor) (i : Incident)
    → ((m : Monitor) → f m ≡ on m.id)
    → shown (select f ms) i ≡ (any (λ m. m.id == i.monitor_id) ms && on i.monitor_id)
shown_tagged f on [] i same = refl
shown_tagged f on (m ∷ ms) i same = elim (Bool-cases (m.id == i.monitor_id)) [
  | inl here ↦
      let e : f m ≡ on i.monitor_id = same m ∙ ap on ((eq_iff m.id i.monitor_id).0 here) in
      ground (arith, shown_tagged f on ms i same)
  | inr there ↦ ground (arith, shown_tagged f on ms i same)
]

tags_calm :
    (page : String) (w : World)
    → w.faults ≡ []
    → or_empty (Pages.get_tag_ids page w).0
      ≡ tags_of (select (λ l. l.owner_id == page) w.db.page_tags)
unfolding Pages.get_tag_ids
tags_calm page w calm = ap (λ r. or_empty r.0) (fetch_calm (Pages.tags_on page) w calm)

monitors_calm :
    (tags : List String) (w : World)
    → w.faults ≡ []
    → (monitors_tagged tags w).0
      ≡ select (λ m. any (λ t. any (linked m.id t) w.db.monitor_tags) tags) w.db.monitors
unfolding Monitors.find_by_tag_ids
monitors_calm [] w calm = sym (select_never w.db.monitors)
monitors_calm (t ∷ ts) w calm =
    ap (λ r. or_empty r.0) (fetch_calm (Monitors.with_tags (t ∷ ts)) w calm)

-- The monitors of a page, and the incidents that are theirs.
page_monitors :
    (page : String) (w w1 : World)
    → w.faults ≡ []
    → w1 ≡ w
    → (i : Incident)
    → shown (monitors_tagged (or_empty (Pages.get_tag_ids page w).0) w1).0 i ≡ belongs w.db page i
page_monitors page w w1 calm same i =
    let tags = or_empty (Pages.get_tag_ids page w).0 in
    let tagged =
      λ (ts : List String). λ (m : Monitor). any (λ t. any (linked m.id t) w.db.monitor_tags) ts in
    let chosen : (monitors_tagged tags w1).0
        ≡ select (tagged (tags_of (select (λ l. l.owner_id == page) w.db.page_tags)))
            w.db.monitors =
      ap (λ v. (monitors_tagged tags v).0) same
      ∙ monitors_calm tags w calm
      ∙ ap (λ ts. select (tagged ts) w.db.monitors) (tags_calm page w calm) in
    ap (λ ms. shown ms i) chosen
    ∙ shown_tagged _ (on_page w.db page) w.db.monitors i
        (λ m. any-tags_of m.id page w.db.monitor_tags w.db.page_tags)

module _ (ilike : String → String → Bool) where
  -- The newest incidents of the whole installation.
  abbrev pub newest : (Incident → Bool) → ℕ → Db → List Incident
  newest also n d = map (with_current_name d) (page_rows ilike also "" 0 n d)

  listed :
      (also : Incident → Bool) (n : ℕ) (w v : World)
      → w.faults ≡ []
      → v ≡ w
      → (total : ℕ) × ((listing ilike also "" 0 n v).0 ≡ ok (newest also n w.db, total))
  listed also n w v calm same = (
    _,
    ap (λ u. (listing ilike also "" 0 n u).0) same
        ∙ ap (λ r. r.0) (listing_calm ilike also "" 0 n w calm),
  )

module _ (floats : Floats) (ilike : String → String → Bool) where
  -- The incidents that the page shows.
  abbrev pub Chosen : Db → String → PublicStatusPageData floats → Type 0
  Chosen d page shown_page =
      (shown_page.active_incidents ≡ actives (select (belongs d page) (newest ilike is_open 10 d)))
      × (shown_page.recent_incidents
          ≡ resolveds
              (take 10 (select (belongs d page) (newest ilike (λ i. not (is_open i)) 50 d))))

  page_found-Chosen :
      (sp : StatusPage) (w : World)
      → w.faults ≡ []
      → (page : PublicStatusPageData floats) × ((page_found floats ilike (ok sp) w).0 ≡ ok page)
        × Chosen w.db sp.id page
  unfolding page_found find_active find_resolved
  page_found-Chosen sp w calm =
      let tags = or_empty (Pages.get_tag_ids sp.id w).0 in
      let w1 : World = (Pages.get_tag_ids sp.id w).1 in
      let ms = (monitors_tagged tags w1).0 in
      let w2 : World = (monitors_tagged tags w1).1 in
      let w3 : World = (rows_of floats ms w2).1 in
      let w4 : World = (find_active ilike "" 0 10 w3).1 in
      let s1 : Still w w1 = get_tag_ids-Still sp.id w calm in
      let s2 : Still w1 w2 = monitors_tagged-Still tags w1 s1.calm in
      let s3 : Still w2 w3 = rows_of-Still floats ms w2 s2.calm in
      let e3 : w3 ≡ w = s3.same ∙ s2.same ∙ s1.same in
      let e4 : w4 ≡ w = ap (λ r. r.1) (listing_calm ilike is_open "" 0 10 w3 s3.calm) ∙ e3 in
      let theirs = page_monitors sp.id w w1 calm s1.same in
      let (n, active) = listed ilike is_open 10 w w3 calm e3 in
      let (k, resolved) = listed ilike (λ i. not (is_open i)) 50 w w4 calm e4 in
      (
        _,
        refl,
        (
          ap (active_shown ms) active
              ∙ ap actives (
                  select_ext (shown ms) (belongs w.db sp.id) theirs (newest ilike is_open 10 w.db)),
          ap (resolved_shown ms) resolved
              ∙ ap (λ is. resolveds (take 10 is))
                  (select_ext (shown ms) (belongs w.db sp.id) theirs
                    (newest ilike (λ i. not (is_open i)) 50 w.db)),
        ),
      )

  -- If the database works, a public page can be shown, and its active incidents are those of its monitors
  -- among the ten newest open incidents of the whole installation; its recent ones are the ten newest of its
  -- monitors among the fifty newest resolved incidents of the whole installation. So an open incident of the
  -- page is not shown while ten newer ones are open elsewhere.
  pub get_public-Chosen :
      (slug : String) (sp : StatusPage) (w : World)
      → w.faults ≡ []
      → find (λ p. p.slug == slug) w.db.pages ≡ some sp
      → (page : PublicStatusPageData floats) × ((get_public floats ilike slug w).0 ≡ ok page)
        × Chosen w.db sp.id page
  unfolding get_public Pages.find_by_slug
  get_public-Chosen slug sp w calm found =
      let (page, e, chosen) = page_found-Chosen sp w calm in
      let looked_up = fetch_calm (λ d. found_or (find (λ p. p.slug == slug) d.pages)) w calm in
      (
        page,
        ap (λ r. (page_found floats ilike r.0 r.1).0) looked_up
            ∙ ap (λ r. (page_found floats ilike r w).0) (ap found_or found)
            ∙ e,
        chosen,
      )
