-- ===== src/Repo/Users.antt =====
-- internal/adapter/repo/user_repo.go: the table users.
use hivepulse.Prelude.{
  ℕ, ◌*◌, ◌-◌, String, ◌==◌, Bool, true, not, ◌&&◌, ◌||◌, none, some, List, [], ◌∷◌, ◌++◌, length,
  any, find, update, select, order_by, page_of, leb, if◌then◌else◌,
}
use hivepulse.Domain.{Result, ok, err, not_found, other, Time, Monitor, User}
use hivepulse.World.{Db, Action, query, insert_row, fetch}
use hivepulse.Repo.Monitors.{found_or}

-- The CHECK on `role`.
abbrev pub known_role : String → Bool
known_role r = r == "admin" || r == "editor" || r == "viewer"

abbrev pub has_user : Db → String → Bool
has_user d id = any (λ u. u.id == id) d.users

abbrev pub insert_user : User → Time → String → Db → Result (Unit {0}) × Db
insert_user u now id d =
    if known_role u.role && not (any (λ x. x.email == u.email) d.users)
    then (
      ok tt,
      record d { users = d.users ++ record u { id = id; created_at = now; updated_at = now } ∷ [] },
    )
    else (err (other "users: constraint violated"), d)

-- `UserRepo.Create`, without the id that is copied back.
unfoldable pub create : User → Action (Unit {0})
create u w = insert_row (insert_user u w.now) w

-- `UserRepo.FindByEmail`
unfoldable pub find_by_email : String → Action User
find_by_email email = fetch (λ d. found_or (find (λ u. u.email == email) d.users))

-- `UserRepo.FindByID`
unfoldable pub find_by_id : String → Action User
find_by_id id = fetch (λ d. found_or (find (λ u. u.id == id) d.users))

-- `UserRepo.Count`
unfoldable pub count : Action ℕ
count = fetch (λ d. ok (length d.users))

abbrev oldest_first : User → User → Bool
oldest_first a b = leb a.created_at b.created_at

abbrev listed : ℕ → ℕ → Result ℕ → Action (List User × ℕ)
listed page limit (err e) w = (err e, w)
listed page limit (ok total) w =
    fetch (λ d. ok (page_of ((page - 1) * limit) limit (order_by oldest_first d.users), total)) w

-- `UserRepo.List`, for a page of 1 or more.
unfoldable pub list : ℕ → ℕ → Action (List User × ℕ)
unfolding count
list page limit w = let (total, w1) = count w in listed page limit total w1

-- `UserRepo.UpdateRole`
unfoldable pub update_role : String → String → Action (Unit {0})
update_role id role w =
    query
      (λ d.
        if not (has_user d id)
        then (err not_found, d)
        else if known_role role
        then (
          ok tt,
          record d {
            users =
                update (λ u. u.id == id) (λ u. record u { role = role; updated_at = w.now })
                  d.users;
          },
        )
        else (err (other "users: constraint violated"), d))
      w

abbrev owned : List Monitor → String → String → Bool
owned ms user id = any (λ m. m.id == id && m.user_id == user) ms

-- The tables that refer to users with ON DELETE CASCADE, and those that refer to the monitors that go.
abbrev pub without_user : String → Db → Db
without_user user d =
    let goes = owned d.monitors user in
    record d {
      users = select (λ u. not (u.id == user)) d.users;
      tokens = select (λ t. not (t.user_id == user)) d.tokens;
      monitors = select (λ m. not (m.user_id == user)) d.monitors;
      heartbeats = select (λ h. not (goes h.monitor_id)) d.heartbeats;
      incidents = select (λ i. not (goes i.monitor_id)) d.incidents;
      windows = select (λ x. elim x.monitor_id [ none ↦ true | some k ↦ not (goes k) ]) d.windows;
      assignments = select (λ a. not (goes a.monitor_id)) d.assignments;
      monitor_tags = select (λ l. not (goes l.owner_id)) d.monitor_tags;
      hourly = select (λ b. not (goes b.monitor_id)) d.hourly;
      minutely = select (λ b. not (goes b.monitor_id)) d.minutely;
      daily = select (λ b. not (goes b.monitor_id)) d.daily;
    }

abbrev pub remove_user : String → Db → Result (Unit {0}) × Db
remove_user id d = if has_user d id then (ok tt, without_user id d) else (err not_found, d)

-- `UserRepo.Delete`
unfoldable pub delete : String → Action (Unit {0})
delete id = query (remove_user id)
