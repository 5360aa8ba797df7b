-- ===== src/Repo/Pages.antt =====
-- internal/adapter/repo/status_page_repo.go: the tables status_pages and status_page_tags.
pub mod Slugs
use hivepulse.Prelude.{
  ℕ, Option, none, some, take, drop, ℤ, before, ◌*ℤ◌, String, ◌==◌, Bool, true, false, not, ◌&&◌,
  ◌||◌, List, [], ◌∷◌, ◌++◌, length, any, all, find, update, select, order_by, leb, ltb,
  if◌then◌else◌,
}
use hivepulse.Domain.{Error, Result, ok, err, not_found, other, Time, StatusPage}
use hivepulse.World.{TagLink, Db, World, State, Action, query, insert_row, fetch}
use hivepulse.Repo.Monitors.{found_or}

abbrev pub insert_page : StatusPage → Time → String → Db → Result StatusPage × Db
insert_page sp now id d =
    let row : StatusPage = record sp {
      id = id;
      tag_ids = [];
      created_at = now;
      updated_at = now;
    } in
    if any (λ p. p.id == id) d.pages || any (λ p. p.slug == sp.slug) d.pages
    then (err (other "status_pages: constraint violated"), d)
    else (ok row, record d { pages = d.pages ++ row ∷ [] })

-- `StatusPageRepo.Create`; it returns the row, whose id and times are copied back.
unfoldable pub create : StatusPage → Action StatusPage
create sp w = insert_row (insert_page sp w.now) w

-- The columns that `Update` writes.
abbrev pub updated_page : Time → StatusPage → StatusPage → StatusPage
updated_page now sp row = record row {
  slug = sp.slug;
  title = sp.title;
  description = sp.description;
  logo_url = sp.logo_url;
  accent_color = sp.accent_color;
  custom_domain = sp.custom_domain;
  updated_at = now;
}

-- Another page has the slug.
abbrev pub taken : Db → String → String → Bool
taken d slug id = any (λ p. p.slug == slug && not (p.id == id)) d.pages

abbrev pub write_page : Time → StatusPage → Db → Result (Unit {0}) × Db
write_page now sp d =
    if any (λ p. p.id == sp.id) d.pages && taken d sp.slug sp.id
    then (err (other "status_pages: constraint violated"), d)
    else (ok tt, record d { pages = update (λ p. p.id == sp.id) (updated_page now sp) d.pages })

-- `StatusPageRepo.Update`: no row with the id is no error.
unfoldable pub update_page : StatusPage → Action (Unit {0})
update_page sp w = query (write_page w.now sp) w

abbrev pub without_page : String → Db → Db
without_page id d = record d {
  pages = select (λ p. not (p.id == id)) d.pages;
  page_tags = select (λ l. not (l.owner_id == id)) d.page_tags;
}

-- `StatusPageRepo.Delete`
unfoldable pub delete : String → Action (Unit {0})
delete id = query (λ d. (ok tt, without_page id d))

-- `StatusPageRepo.FindByID`
unfoldable pub find_by_id : String → Action StatusPage
find_by_id id = fetch (λ d. found_or (find (λ p. p.id == id) d.pages))

-- `StatusPageRepo.FindBySlug`
unfoldable pub find_by_slug : String → Action StatusPage
find_by_slug slug = fetch (λ d. found_or (find (λ p. p.slug == slug) d.pages))

abbrev newest_first : StatusPage → StatusPage → Bool
newest_first a b = leb b.created_at a.created_at

-- The count is left at 0 by an error, which is not looked at.
abbrev or_zero : Result ℕ → ℕ
or_zero (ok n) = n
or_zero (err e) = 0

abbrev with_total : ℕ → Result (List StatusPage) → Result (List StatusPage × ℕ)
with_total total (err e) = err e
with_total total (ok l) = ok (l, total)

-- The clauses that gorm writes for `Limit(n)`, none if it writes no LIMIT, and for `Offset(n)`.
pub record Clauses : Type 0 where
  pub limit_clause : ℤ → Option ℕ
  pub offset_clause : ℤ → ℕ

abbrev limited {ℓ} : {A : Type ℓ} → Option ℕ → List A → List A
limited none xs = xs
limited (some n) xs = take n xs

abbrev pub listed_rows : Clauses → ℤ → ℤ → Db → List StatusPage
listed_rows gorm page limit d =
    limited (gorm.limit_clause limit)
      (drop (gorm.offset_clause (before page *ℤ limit)) (order_by newest_first d.pages))

-- `StatusPageRepo.List`
unfoldable pub list : Clauses → ℤ → ℤ → Action (List StatusPage × ℕ)
list gorm page limit w =
    let (total, w1) = fetch (λ d. ok (length d.pages)) w in
    let (rows, w2) = fetch (λ d. ok (listed_rows gorm page limit d)) w1 in
    (with_total (or_zero total) rows, w2)

abbrev excluded : String → StatusPage → Bool
excluded id p = not (id == "") && p.id == id

abbrev pub count_slug : String → String → Db → Result ℕ
count_slug slug exclude d =
    ok (length (select (λ p. p.slug == slug && not (excluded exclude p)) d.pages))

-- `StatusPageRepo.SlugExists`: an error leaves the count at 0, and is not returned.
unfoldable pub slug_exists : String → String → State Bool
slug_exists slug exclude w =
    let (n, w1) = fetch (count_slug slug exclude) w in (ltb 0 (or_zero n), w1)

abbrev distinct_texts : List String → Bool
distinct_texts [] = true
distinct_texts (t ∷ ts) = not (any (λ u. u == t) ts) && distinct_texts ts

abbrev links : String → List String → List TagLink
links id [] = []
links id (t ∷ ts) = record { owner_id = id; tag_id = t } ∷ links id ts

abbrev can_link : Db → String → List String → Bool
can_link d id [] = true
can_link d id (t ∷ ts) =
    any (λ p. p.id == id) d.pages
    && all (λ x. any (λ g. g.id == x) d.tags) (t ∷ ts)
    && distinct_texts (t ∷ ts)

abbrev pub write_links : String → List String → Db → Result (Unit {0}) × Db
write_links id tags d =
    if can_link d id tags
    then (
      ok tt,
      record d { page_tags = select (λ l. not (l.owner_id == id)) d.page_tags ++ links id tags },
    )
    else (err (other "status_page_tags: constraint violated"), d)

-- `StatusPageRepo.SetTags`: one transaction, which a statement that fails aborts as a whole.
unfoldable pub set_tags : String → List String → Action (Unit {0})
set_tags id tags = query (write_links id tags)

abbrev pub tags_of : List TagLink → List String
tags_of [] = []
tags_of (l ∷ ls) = l.tag_id ∷ tags_of ls

abbrev pub tags_on : String → Db → Result (List String)
tags_on id d = ok (tags_of (select (λ l. l.owner_id == id) d.page_tags))

-- `StatusPageRepo.GetTagIDs`
unfoldable pub get_tag_ids : String → Action (List String)
get_tag_ids id = fetch (tags_on id)
