-- ===== src/Handler/Routes.antt =====
-- cmd/oss/main.go: the routes under /api/v1, in the order of their registration, with the middleware that
-- stands before their handlers.
pub mod Roles
use hivepulse.Prelude.{
  String, Bool, true, false, Option, none, some, List, [], ◌∷◌, ℕ, if◌then◌else◌,
}
use hivepulse.Handler.Guards.{
  Claims, Verdict, passes, refused, panics, jwt_auth, role_guard, editor_guard, admin_guard,
}

pub record Route : Type 0 where
  pub method : String
  pub path : String
  pub jwt : Bool
  pub guards : List (List String)

abbrev pub route : String → String → Bool → List (List String) → Route
route method path jwt guards = record { method = method; path = path; jwt = jwt; guards = guards }

-- The routes of `auth`.
abbrev pub auth_routes : List Route
auth_routes =
    route "GET" "/api/v1/auth/setup/status" false []
    ∷ route "POST" "/api/v1/auth/setup" false []
    ∷ route "POST" "/api/v1/auth/login" false []
    ∷ route "POST" "/api/v1/auth/refresh" false []
    ∷ route "POST" "/api/v1/auth/logout" true []
    ∷ route "GET" "/api/v1/auth/me" true []
    ∷ []

-- All the others.
abbrev pub api_routes : List Route
api_routes =
    route "GET" "/api/v1/monitors" true []
    ∷ route "GET" "/api/v1/monitors/:id" true []
    ∷ route "GET" "/api/v1/monitors/:id/heartbeats" true []
    ∷ route "GET" "/api/v1/monitors/:id/stats" true []
    ∷ route "POST" "/api/v1/monitors" true (editor_guard ∷ [])
    ∷ route "PUT" "/api/v1/monitors/:id" true (editor_guard ∷ [])
    ∷ route "DELETE" "/api/v1/monitors/:id" true (editor_guard ∷ [])
    ∷ route "GET" "/api/v1/monitors/:id/channels" true (admin_guard ∷ [])
    ∷ route "POST" "/api/v1/monitors/:id/channels/:chID" true (admin_guard ∷ [])
    ∷ route "DELETE" "/api/v1/monitors/:id/channels/:chID" true (admin_guard ∷ [])
    ∷ route "PUT" "/api/v1/monitors/:id/channels/:channelId/triggers" true (admin_guard ∷ [])
    ∷ route "GET" "/api/v1/monitors/:id/maintenance" true []
    ∷ route "GET" "/api/v1/stats/overview" true []
    ∷ route "GET" "/api/v1/maintenance-windows" true (editor_guard ∷ [])
    ∷ route "POST" "/api/v1/maintenance-windows" true (editor_guard ∷ [])
    ∷ route "DELETE" "/api/v1/maintenance-windows/:id" true (editor_guard ∷ [])
    ∷ route "GET" "/api/v1/notification-channels" true (admin_guard ∷ [])
    ∷ route "POST" "/api/v1/notification-channels" true (admin_guard ∷ [])
    ∷ route "PUT" "/api/v1/notification-channels/:id" true (admin_guard ∷ [])
    ∷ route "DELETE" "/api/v1/notification-channels/:id" true (admin_guard ∷ [])
    ∷ route "GET" "/api/v1/notification-channels/:id/logs" true (admin_guard ∷ [])
    ∷ route "POST" "/api/v1/notification-channels/:id/test" true (admin_guard ∷ [])
    ∷ route "GET" "/api/v1/settings/smtp" true (admin_guard ∷ [])
    ∷ route "PUT" "/api/v1/settings/smtp" true (admin_guard ∷ [])
    ∷ route "GET" "/api/v1/settings/general" true (admin_guard ∷ [])
    ∷ route "PUT" "/api/v1/settings/general" true (admin_guard ∷ [])
    ∷ route "GET" "/api/v1/incidents" true []
    ∷ route "GET" "/api/v1/users" true (admin_guard ∷ [])
    ∷ route "PUT" "/api/v1/users/:id/role" true (admin_guard ∷ [])
    ∷ route "DELETE" "/api/v1/users/:id" true (admin_guard ∷ [])
    ∷ route "GET" "/api/v1/ws" true []
    ∷ route "GET" "/api/v1/tags" true []
    ∷ route "POST" "/api/v1/tags" true (admin_guard ∷ [])
    ∷ route "DELETE" "/api/v1/tags/:id" true (admin_guard ∷ [])
    ∷ route "GET" "/api/v1/monitors/:id/tags" true []
    ∷ route "POST" "/api/v1/monitors/:id/tags/:tagId" true (editor_guard ∷ [])
    ∷ route "DELETE" "/api/v1/monitors/:id/tags/:tagId" true (editor_guard ∷ [])
    ∷ route "GET" "/api/v1/status-pages" true []
    ∷ route "GET" "/api/v1/status-pages/:id" true []
    ∷ route "POST" "/api/v1/status-pages" true (admin_guard ∷ [])
    ∷ route "PUT" "/api/v1/status-pages/:id" true (admin_guard ∷ [])
    ∷ route "DELETE" "/api/v1/status-pages/:id" true (admin_guard ∷ [])
    ∷ []

abbrev pub and_then : Verdict → Verdict → Verdict
and_then passes v = v
and_then (refused status) v = refused status
and_then panics v = panics

-- The guards one after the other: the first that does not go on ends the request.
unfoldable pub run_guards : List (List String) → Option Claims → Verdict
run_guards [] claims = passes
run_guards (g ∷ gs) claims = and_then (role_guard g claims) (run_guards gs claims)

abbrev pub after_jwt : List (List String) → Option Claims → Verdict
after_jwt guards none = refused 401
after_jwt guards (some c) = run_guards guards (some c)

-- What becomes of a request to a route before its handler.
unfoldable pub admit : (List ℕ → Option Claims) → List ℕ → List ℕ → Route → Verdict
admit parse header query r =
    if r.jwt then after_jwt r.guards (jwt_auth parse header query) else run_guards r.guards none
