-- ===== src/Repo/Tags.antt =====
-- internal/adapter/repo/tag_repo.go: the table tags.
use hivepulse.Prelude.{
  String, ◌==◌, Bool, List, order_by, not, [], ◌∷◌, ◌++◌, any, find, select, if◌then◌else◌,
}
use hivepulse.Domain.{Result, ok, err, other, Time, Tag}
use hivepulse.World.{Db, Action, query, insert_row, fetch}
use hivepulse.Repo.Monitors.{found_or}

abbrev pub insert_tag : Tag → Time → String → Db → Result Tag × Db
insert_tag t now id d =
    if any (λ x. x.name == t.name) d.tags then (err (other "tags: constraint violated"), d) else (
      ok (record t { id = id; created_at = now }),
      record d { tags = d.tags ++ record t { id = id; created_at = now } ∷ [] },
    )

-- `TagRepo.Create`; it returns the row, whose id and creation time are copied back.
unfoldable pub create : Tag → Action Tag
create t w = insert_row (insert_tag t w.now) w

-- The tables that refer to tags with ON DELETE CASCADE.
abbrev pub without_tag : String → Db → Db
without_tag id d = record d {
  tags = select (λ t. not (t.id == id)) d.tags;
  monitor_tags = select (λ l. not (l.tag_id == id)) d.monitor_tags;
  page_tags = select (λ l. not (l.tag_id == id)) d.page_tags;
}

-- `TagRepo.Delete`: no row with the id is no error.
unfoldable pub delete : String → Action (Unit {0})
delete id = query (λ d. (ok tt, without_tag id d))

-- `TagRepo.FindByID`
unfoldable pub find_by_id : String → Action Tag
find_by_id id = fetch (λ d. found_or (find (λ t. t.id == id) d.tags))

-- `TagRepo.List`; `before` is the order of the database's collation.
unfoldable pub list : (String → String → Bool) → Action (List Tag)
list before = fetch (λ d. ok (order_by (λ a b. before a.name b.name) d.tags))
