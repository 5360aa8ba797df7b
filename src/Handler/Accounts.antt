-- ===== src/Handler/Accounts.antt =====
-- internal/adapter/handler/user_handler.go. The times in a response are not formatted.
use hivepulse.Prelude.{ℕ, String, ◌==◌, not, ◌||◌, Option, none, some, List, map, ℤ, if◌then◌else◌}
use hivepulse.Domain.{
  Error, not_found, validation, Time, User, role_admin, role_editor, role_viewer,
}
use hivepulse.World.{State}
use hivepulse.Usecase.Auth.{list_users, update_role, delete_user}
use hivepulse.Handler.Replies.{status_of, reply, always, or_number}

pub record UserResponse : Type 0 where
  pub id : String
  pub name : String
  pub email : String
  pub role : String
  pub created_at : Time

abbrev user_response : User → UserResponse
user_response u = record {
  id = u.id;
  name = u.name;
  email = u.email;
  role = u.role;
  created_at = u.created_at;
}

pub record UserListing : Type 0 where
  pub rows : List UserResponse
  pub total : ℕ
  pub page : ℤ
  pub limit : ℤ

abbrev listing_of : ℤ → ℤ → List User × ℕ → UserListing
listing_of page limit (us, total) = record {
  rows = map user_response us;
  total = total;
  page = page;
  limit = limit;
}

-- `UserHandler.ListUsers`
unfoldable pub list : Option ℤ → Option ℤ → State (ℕ × Option UserListing)
list page limit w =
    let (r, w1) = list_users (or_number page 1) (or_number limit 20) w in
    (reply (always 500) 200 (listing_of (or_number page 1) (or_number limit 20)) r, w1)

abbrev role_error : Error → ℕ
role_error not_found = 404
role_error _ = 500

abbrev role_bound : String → Option String → State ℕ
role_bound id none w = (400, w)
role_bound id (some role) w =
    if not (role == role_admin || role == role_editor || role == role_viewer)
    then (400, w)
    else (let (r, w1) = update_role id role w in (status_of role_error 200 r, w1))

-- `UserHandler.UpdateRole`: the binding refuses an empty role, as the test of the roles does.
unfoldable pub change_role : String → Option String → State ℕ
change_role id body = role_bound id body

abbrev delete_error : Error → ℕ
delete_error (validation message) = 400
delete_error not_found = 404
delete_error _ = 500

-- `UserHandler.DeleteUser`, for the user of the token.
unfoldable pub delete : String → String → State ℕ
delete target caller w =
    let (r, w1) = delete_user target caller w in (status_of delete_error 204 r, w1)
