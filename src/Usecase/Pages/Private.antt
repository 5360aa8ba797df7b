-- ===== src/Usecase/Pages/Private.antt =====
-- A public page shows incidents of its own monitors only.
use mathlib.Core.Path.{subst}
use hivepulse.Prelude.{
  ℕ, ◌≤◌, String, ◌==◌, ◌≡◌, refl, sym, ◌∙◌, Bool, true, not, some, inl, inr, ◌⊎◌, List, [], ◌∷◌,
  all, find, select, take, map, length, order_by, all-select, all-take, all-order_by, arith,
  length-take-le, length-select-le, Option-cases,
}
use hivepulse.Domain.{Result, ok, err, Incident, Monitor, StatusPage, Floats, PublicStatusPageData}
use hivepulse.World.{Db, World, query-cases, fetch-db}
use hivepulse.Repo.Monitors.{found_or}
use hivepulse.Repo.Pages
use hivepulse.Repo.Pages.{tags_of}
use hivepulse.Repo.Incidents.{
  with_current_name, newest_first, is_open, base_query, page_rows, listing, find_active,
  find_resolved,
}
use hivepulse.Repo.Incidents.Listed.{all-named, length-named, listing-expected, listing-db}
use hivepulse.Usecase.Pages.{or_empty}
use hivepulse.Usecase.Pages.Public.{
  shown, actives, resolveds, active_shown, resolved_shown, monitors_tagged, rows_of, page_found,
  get_public,
}
use hivepulse.Usecase.Pages.Reveals.{
  from_page, stored, Shows, all-stored, all-actives, all-resolveds, all-shown, tags_read,
  monitors_of-Shows,
}
use hivepulse.Usecase.Pages.Reads.{rows_of-db, monitors_tagged-db, get_tag_ids-db}

length-actives : (is : List Incident) → length (actives is) ≡ length is
length-actives [] = refl
length-actives (i ∷ is) = omega (arith, length-actives is)

length-resolveds : (is : List Incident) → length (resolveds is) ≡ length is
length-resolveds [] = refl
length-resolveds (i ∷ is) = omega (arith, length-resolveds is)

abbrev Listing : ℕ → Db → Result (List Incident × ℕ) → Type 0
Listing limit d r =
    (is : List Incident) (total : ℕ)
    → r ≡ ok (is, total)
    → (all (stored d) is ≡ true) × (length is ≤ limit)

abbrev TagsOf : Db → String → List String → Type 0
TagsOf d page tags = (tags ≡ []) ⊎ (tags ≡ tags_of (select (λ l. l.owner_id == page) d.page_tags))

module _ (ilike : String → String → Bool) (also : Incident → Bool) (limit : ℕ) where
  -- The rows of a page of a listing are stored, and no more than were asked for.
  page-stored :
      (d : Db)
      → all (stored d) (map (with_current_name d) (page_rows ilike also "" 0 limit d)) ≡ true
  page-stored d =
      all-named (stored d) d (λ i. refl) (page_rows ilike also "" 0 limit d)
        (all-take (stored d) limit (order_by newest_first (base_query ilike also "" d)) (
          all-order_by (stored d) newest_first (base_query ilike also "" d)
            (all-select (stored d) _ d.incidents (all-stored d))))

  page-few :
      (d : Db) → length (map (with_current_name d) (page_rows ilike also "" 0 limit d)) ≤ limit
  page-few d = omega (
    arith,
    length-named d (page_rows ilike also "" 0 limit d),
    length-take-le limit (order_by newest_first (base_query ilike also "" d)),
  )

  listing-Listing : (w : World) → Listing limit w.db (listing ilike also "" 0 limit w).0
  listing-Listing w is total h =
      let same = listing-expected ilike also "" 0 limit w is total h in
      (rw same (page-stored w.db), rw same (page-few w.db))

module _ (d : Db) (sp : StatusPage) (slug : String)
    (found : find (λ p. p.slug == slug) d.pages ≡ some sp) where
  active-from :
      (ms : List Monitor) (r : Result (List Incident × ℕ)) (limit : ℕ)
      → Shows d sp.id ms
      → Listing limit d r
      → (all (from_page d slug) (active_shown ms r) ≡ true) × (length (active_shown ms r) ≤ limit)
  active-from ms (err e) limit shows listed = (refl, omega arith)
  active-from ms (ok (is, total)) limit shows listed =
      let (kept, few) = listed is total refl in
      (
        all-actives d sp slug found ms is shows kept,
        omega (arith, length-actives (select (shown ms) is), length-select-le (shown ms) is),
      )

  resolved-from :
      (ms : List Monitor) (r : Result (List Incident × ℕ)) (limit : ℕ)
      → Shows d sp.id ms
      → Listing limit d r
      → (all (from_page d slug) (resolved_shown ms r) ≡ true) × (length (resolved_shown ms r) ≤ 10)
  resolved-from ms (err e) limit shows listed = (refl, omega arith)
  resolved-from ms (ok (is, total)) limit shows listed =
      let (kept, few) = listed is total refl in
      (
        all-resolveds d sp slug found (take 10 (select (shown ms) is))
            (all-take _ 10 (select (shown ms) is) (all-shown d sp slug found ms is shows kept)),
        omega (
          arith,
          length-resolveds (take 10 (select (shown ms) is)),
          length-take-le 10 (select (shown ms) is),
        ),
      )

module _ (floats : Floats) (ilike : String → String → Bool) where
  -- The incidents of a page.
  abbrev pub IsPrivate : Db → String → PublicStatusPageData floats → Type 0
  IsPrivate d slug page =
      (all (from_page d slug) page.active_incidents ≡ true)
      × (all (from_page d slug) page.recent_incidents ≡ true)
      × (length page.active_incidents ≤ 10)
      × (length page.recent_incidents ≤ 10)

  abbrev ArePrivate : Db → String → Result (PublicStatusPageData floats) → Type 0
  ArePrivate d slug (err e) = Unit
  ArePrivate d slug (ok page) = IsPrivate d slug page

  page_found-ArePrivate :
      (r : Result StatusPage) (slug : String) (w : World)
      → ((sp : StatusPage) → r ≡ ok sp → find (λ p. p.slug == slug) w.db.pages ≡ some sp)
      → ArePrivate w.db slug (page_found floats ilike r w).0
  unfolding page_found find_active find_resolved
  page_found-ArePrivate (err e) slug w found = tt
  page_found-ArePrivate (ok sp) slug w found =
      let tags = or_empty (Pages.get_tag_ids sp.id w).0 in
      let w1 = (Pages.get_tag_ids sp.id w).1 in
      let ms = (monitors_tagged tags w1).0 in
      let w2 = (monitors_tagged tags w1).1 in
      let w3 = (rows_of floats ms w2).1 in
      let w4 = (find_active ilike "" 0 10 w3).1 in
      let e1 : w1.db ≡ w.db = get_tag_ids-db sp.id w in
      let e3 : w3.db ≡ w.db = rows_of-db floats ms w2 ∙ monitors_tagged-db tags w1 ∙ e1 in
      let e4 : w4.db ≡ w.db = listing-db ilike is_open "" 0 10 w3 ∙ e3 in
      let read = subst (λ d. TagsOf d sp.id tags) (sym e1) (tags_read sp.id w) in
      let shows = subst (λ d. Shows d sp.id ms) e1 (monitors_of-Shows sp.id tags w1 read) in
      let active =
        subst (λ d. Listing 10 d (find_active ilike "" 0 10 w3).0) e3
          (listing-Listing ilike is_open 10 w3) in
      let resolved =
        subst (λ d. Listing 50 d (find_resolved ilike "" 0 50 w4).0) e4
          (listing-Listing ilike (λ i. not (is_open i)) 50 w4) in
      let (from_active, few_active) =
        active-from w.db sp slug (found sp refl) ms _ 10 shows active in
      let (from_resolved, few_resolved) =
        resolved-from w.db sp slug (found sp refl) ms _ 50 shows resolved in
      (from_active, from_resolved, few_active, few_resolved)

  found_by_slug :
      (slug : String) (w : World) (sp : StatusPage)
      → (Pages.find_by_slug slug w).0 ≡ ok sp
      → find (λ p. p.slug == slug) w.db.pages ≡ some sp
  unfolding Pages.find_by_slug
  found_by_slug slug w sp h =
      elim (query-cases {0} {A = StatusPage}
        (λ d. (found_or (find (λ p. p.slug == slug) d.pages), d)) w) [
          | inl (m, failed, same) ↦ cc
          | inr (done, same) ↦ elim (Option-cases (find (λ p. p.slug == slug) w.db.pages)) [
            | inl absent ↦ ground arith
            | inr (p, present) ↦ ground arith
          ]
        ]

  -- Whichever statements of the database fail: each incident that a public page shows, active or recent, is
  -- a stored incident of a monitor that carries a tag of the page with the slug, and there are at most ten
  -- of either kind.
  pub get_public-IsPrivate :
      (slug : String) (w : World) (page : PublicStatusPageData floats)
      → (get_public floats ilike slug w).0 ≡ ok page
      → IsPrivate w.db slug page
  unfolding get_public Pages.find_by_slug
  get_public-IsPrivate slug w page h =
      let e : (Pages.find_by_slug slug w).1.db ≡ w.db =
        fetch-db (λ d. found_or (find (λ p. p.slug == slug) d.pages)) w in
      let found =
        subst
          (λ d.
            (sp : StatusPage)
            → (Pages.find_by_slug slug w).0 ≡ ok sp
            → find (λ p. p.slug == slug) d.pages ≡ some sp)
          (sym e) (found_by_slug slug w) in
      subst (λ r. ArePrivate w.db slug r) h
        (subst (λ d. ArePrivate d slug (get_public floats ilike slug w).0) e
          (page_found-ArePrivate (Pages.find_by_slug slug w).0 slug (Pages.find_by_slug slug w).1
            found))
