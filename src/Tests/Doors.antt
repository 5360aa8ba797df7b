-- ===== src/Tests/Doors.antt =====
-- A request of an administrator.
use hivepulse.Prelude.{ℕ, ◌≡◌, refl, true, Option, some, List, [], ◌∷◌, ◌++◌}
use hivepulse.Handler.Guards.{
  Claims, passes, bearer, after_prefix, token_of, jwt_auth, role_guard, editor_guard,
}
use hivepulse.Handler.Routes.{Route, admit, run_guards}
use hivepulse.Handler.Routes.Roles.{has_role, change_needs_role}

abbrev claims_of : List ℕ → Option Claims
claims_of token = some (record { sub = "u1"; role = some "admin" })

abbrev header : List ℕ
header = bearer ++ 65 ∷ []

abbrev post_monitor : Route
post_monitor = record {
  method = "POST";
  path = "/api/v1/monitors";
  jwt = true;
  guards = editor_guard ∷ [];
}

comes_in : admit claims_of header [] post_monitor ≡ passes
unfolding admit run_guards role_guard jwt_auth token_of after_prefix
comes_in = refl

change_needs_role_example : has_role editor_guard (jwt_auth claims_of header []) ≡ true
change_needs_role_example =
    change_needs_role claims_of header [] "POST" "/api/v1/monitors" post_monitor refl refl comes_in
