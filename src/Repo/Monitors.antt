-- ===== src/Repo/Monitors.antt =====
-- internal/adapter/repo/monitor_repo.go: the tables monitors and monitor_tags. The model struct of
-- gorm has the fields of `Monitor`, so `toDomainMonitor` is the identity.
use hivepulse.Prelude.{
  ℕ, ◌*◌, ◌-◌, String, ◌==◌, Bool, true, not, ◌&&◌, ◌||◌, Option, none, some, List, [], ◌∷◌, ◌++◌,
  length, any, all, select, find, update, page_of, order_by, leb, if◌then◌else◌,
}
use hivepulse.Domain.{Result, ok, err, not_found, other, Time, Monitor, Tag}
use hivepulse.Repo.Columns.{fits_text, fits_varchar, fits_integer, shortened}
use hivepulse.World.{Db, TagLink, Action, query, insert_row, fetch}

abbrev pub has_monitor : Db → String → Bool
has_monitor d id = any (λ m. m.id == id) d.monitors

-- The CHECK on `check_type`.
abbrev pub known_check_type : String → Bool
known_check_type t = t == "http" || t == "tcp" || t == "ping" || t == "dns"

-- The columns of the table: VARCHAR, TEXT and INTEGER.
unfoldable pub fits_columns : Monitor → Bool
fits_columns m =
    fits_varchar 100 m.name
    && fits_varchar 10 m.method
    && fits_varchar 10 m.record_type
    && all fits_text (
        m.url ∷ m.request_headers ∷ m.request_body ∷ m.expected_keyword ∷ m.host ∷ m.ping_host
        ∷ m.dns_host ∷ m.expected_value ∷ m.dns_server ∷ [])
    && all fits_integer (
        m.interval ∷ m.timeout ∷ m.retries ∷ m.retry_interval ∷ m.expected_status ∷ m.port
        ∷ m.packet_count ∷ [])

-- What the columns keep of the texts that they take.
abbrev as_stored : Monitor → Monitor
as_stored m = record m {
  name = shortened 100 m.name;
  method = shortened 10 m.method;
  record_type = shortened 10 m.record_type;
}

-- `toMonitorModel`, with what gorm and the database fill in: the id, the times and the status.
unfoldable pub to_model : String → Time → Monitor → Monitor
to_model id now m = record (as_stored m) {
  id = id;
  created_at = now;
  updated_at = now;
  last_status = "unknown";
}

-- `MonitorRepo.Create`; it returns the id that is written to `m.ID`.
unfoldable pub create : Monitor → Action String
unfolding to_model
create m w =
    insert_row
      (λ id d.
        if any (λ u. u.id == m.user_id) d.users && known_check_type m.check_type && fits_columns m
        then (ok id, record d { monitors = d.monitors ++ to_model id w.now m ∷ [] })
        else (err (other "monitors: constraint violated"), d))
      w

abbrev pub found_or {ℓ} : {A : Type ℓ} → Option A → Result A
found_or none = err not_found
found_or (some a) = ok a

-- `MonitorRepo.FindByID`
unfoldable pub find_by_id : String → Action Monitor
find_by_id id = fetch (λ d. found_or (find (λ m. m.id == id) d.monitors))

abbrev pub newest_first : Monitor → Monitor → Bool
newest_first a b = leb b.created_at a.created_at

-- `MonitorRepo.FindAll`, for a page of 1 or more: two statements, the count and the rows.
unfoldable pub find_all : ℕ → ℕ → Action (List Monitor × ℕ)
find_all page limit w =
    let (counted, w1) = fetch (λ d. ok (length d.monitors)) w in
    elim counted [
      | err e ↦ (err e, w1)
      | ok total ↦
          fetch
            (λ d. ok (page_of ((page - 1) * limit) limit (order_by newest_first d.monitors), total))
            w1
    ]

-- The columns that `MonitorRepo.Update` writes: all but the id, the user, the creation time and the
-- last status.
unfoldable pub updated_row : Time → Monitor → Monitor → Monitor
updated_row now m row = record (as_stored m) {
  id = row.id;
  user_id = row.user_id;
  created_at = row.created_at;
  updated_at = now;
  last_status = row.last_status;
}

-- `MonitorRepo.Update`; a value that no column takes is an error whether or not there is a row.
unfoldable pub update_monitor : Monitor → Action (Unit {0})
unfolding updated_row
update_monitor m w =
    query
      (λ d.
        if not (fits_columns m) || (not (known_check_type m.check_type) && has_monitor d m.id)
        then (err (other "monitors: constraint violated"), d)
        else if has_monitor d m.id
        then (
          ok tt,
          record d { monitors = update (λ r. r.id == m.id) (updated_row w.now m) d.monitors },
        )
        else (err not_found, d))
      w

-- The tables that refer to monitors with ON DELETE CASCADE; notification_logs does not.
unfoldable pub without_monitor : String → Db → Db
without_monitor id d = record d {
  monitors = select (λ m. not (m.id == id)) d.monitors;
  heartbeats = select (λ h. not (h.monitor_id == id)) d.heartbeats;
  incidents = select (λ i. not (i.monitor_id == id)) d.incidents;
  windows = select (λ x. elim x.monitor_id [ none ↦ true | some k ↦ not (k == id) ]) d.windows;
  assignments = select (λ a. not (a.monitor_id == id)) d.assignments;
  monitor_tags = select (λ l. not (l.owner_id == id)) d.monitor_tags;
  hourly = select (λ b. not (b.monitor_id == id)) d.hourly;
  minutely = select (λ b. not (b.monitor_id == id)) d.minutely;
  daily = select (λ b. not (b.monitor_id == id)) d.daily;
}

-- `MonitorRepo.Delete`
unfoldable pub delete : String → Action (Unit {0})
unfolding without_monitor
delete id =
    query (λ d. if has_monitor d id then (ok tt, without_monitor id d) else (err not_found, d))

-- `MonitorRepo.FindAllEnabled`
unfoldable pub find_all_enabled : Action (List Monitor)
find_all_enabled = fetch (λ d. ok (select (λ m. m.enabled) d.monitors))

-- The CHECK on `last_status`.
abbrev known_status : String → Bool
known_status s = s == "up" || s == "down" || s == "unknown" || s == "maintenance"

abbrev pub with_status : String → Time → Monitor → Monitor
with_status status now m = record m { last_status = status; updated_at = now }

-- `MonitorRepo.UpdateLastStatus`: no row with the id is no error.
unfoldable pub update_last_status : String → String → Action (Unit {0})
update_last_status id status w =
    query
      (λ d.
        if known_status status || not (has_monitor d id)
        then (
          ok tt,
          record d { monitors = update (λ m. m.id == id) (with_status status w.now) d.monitors },
        )
        else (err (other "monitors: constraint violated"), d))
      w

abbrev pub linked : String → String → TagLink → Bool
linked owner tag l = l.owner_id == owner && l.tag_id == tag

-- `MonitorRepo.AssignTag`: FirstOrCreate reads, and writes if no row was there.
unfoldable pub assign_tag : String → String → Action (Unit {0})
assign_tag id tag w =
    let (read, w1) = fetch (λ d. ok (any (linked id tag) d.monitor_tags)) w in
    elim read [
      | err e ↦ (err e, w1)
      | ok present ↦
          if present
          then (ok tt, w1)
          else query
              (λ d.
                if has_monitor d id && any (λ t. t.id == tag) d.tags
                then (
                  ok tt,
                  record d {
                    monitor_tags = d.monitor_tags ++ record { owner_id = id; tag_id = tag } ∷ [];
                  },
                )
                else (err (other "monitor_tags: constraint violated"), d))
              w1
    ]

-- `MonitorRepo.UnassignTag`
unfoldable pub unassign_tag : String → String → Action (Unit {0})
unassign_tag id tag =
    query
      (λ d. (ok tt, record d { monitor_tags = select (λ l. not (linked id tag l)) d.monitor_tags }))

-- `MonitorRepo.FindTagsByMonitor`
unfoldable pub find_tags_by_monitor : String → Action (List Tag)
find_tags_by_monitor id = fetch (λ d. ok (select (λ t. any (linked id t.id) d.monitor_tags) d.tags))

abbrev pub with_tags : List String → Db → Result (List Monitor)
with_tags tags d = ok (select (λ m. any (λ t. any (linked m.id t) d.monitor_tags) tags) d.monitors)

-- `MonitorRepo.FindByTagIDs`
unfoldable pub find_by_tag_ids : List String → Action (List Monitor)
find_by_tag_ids [] w = (ok [], w)
find_by_tag_ids (tag ∷ tags) w = fetch (with_tags (tag ∷ tags)) w
