-- ===== src/Handler/Routes/Roles.antt =====
-- Which roles the routes let through.
use hivepulse.Prelude.{
  ℕ, String, ◌==◌, eq_iff, ◌≡◌, refl, Bool, Bool-cases, inl, inr, true, false, ◌||◌, ◌&&◌, Option,
  none, some, List, [], ◌∷◌, any, all, find, arith,
}
use hivepulse.Handler.Guards.{
  Claims, Verdict, passes, refused, panics, jwt_auth, guard_role, role_guard, editor_guard,
}
use hivepulse.Handler.Routes.{Route, api_routes, run_guards, and_then, after_jwt, admit}

-- The claims have one of the roles.
abbrev role_in : List String → Option String → Bool
role_in roles none = false
role_in roles (some role) = any (λ r. role == r) roles

abbrev pub has_role : List String → Option Claims → Bool
has_role roles none = false
has_role roles (some c) = role_in roles c.role

-- A guard of the route lets only these roles through.
abbrev within : List String → List String → Bool
within roles allowed = all (λ a. any (λ r. a == r) roles) allowed

abbrev guarded : List String → Route → Bool
guarded roles r = r.jwt && any (within roles) r.guards

abbrev only_reads : Route → Bool
only_reads r = r.method == "GET"

-- Where a token is asked for first, and where a change needs an editor or an administrator.
asks_for_token : all (λ r. r.jwt) api_routes ≡ true
asks_for_token = refl

writes_guarded : all (λ r. only_reads r || guarded editor_guard r) api_routes ≡ true
writes_guarded = refl

all-find :
    (p q : Route → Bool) (l : List Route) (r : Route)
    → all q l ≡ true
    → find p l ≡ some r
    → q r ≡ true
all-find p q [] r h e = cc
all-find p q (x ∷ l) r h e = ground (arith, all-find p q l r)

within-any :
    (roles allowed : List String) (role : String)
    → within roles allowed ≡ true
    → any (λ a. role == a) allowed ≡ true
    → any (λ r. role == r) roles ≡ true
within-any roles [] role h e = cc
within-any roles (a ∷ allowed) role h e =
    ground (arith, within-any roles allowed role, eq_iff role a)

passed_role :
    (roles allowed : List String) (role : Option String)
    → within roles allowed ≡ true
    → guard_role allowed role ≡ passes
    → role_in roles role ≡ true
passed_role roles allowed none inside e = cc
passed_role roles allowed (some role) inside e = ground (arith, within-any roles allowed role)

both_pass : (v v' : Verdict) → and_then v v' ≡ passes → (v ≡ passes) × (v' ≡ passes)
both_pass passes v' e = (refl, e)
both_pass (refused status) v' e = cc
both_pass panics v' e = cc

passed_guard :
    (roles allowed : List String) (claims : Option Claims)
    → within roles allowed ≡ true
    → role_guard allowed claims ≡ passes
    → has_role roles claims ≡ true
unfolding role_guard
passed_guard roles allowed none inside e = cc
passed_guard roles allowed (some c) inside e = passed_role roles allowed c.role inside e

passed_guards :
    (roles : List String) (gs : List (List String)) (claims : Option Claims)
    → any (within roles) gs ≡ true
    → run_guards gs claims ≡ passes
    → has_role roles claims ≡ true
unfolding run_guards
passed_guards roles [] claims some_guard e = cc
passed_guards roles (g ∷ gs) claims some_guard e =
    let (first, others) = both_pass (role_guard g claims) (run_guards gs claims) e in
    elim (Bool-cases (within roles g)) [
      | inl inside ↦ passed_guard roles g claims inside first
      | inr outside ↦ passed_guards roles gs claims (ground arith) others
    ]

past_jwt :
    (roles : List String) (gs : List (List String)) (claims : Option Claims)
    → any (within roles) gs ≡ true
    → after_jwt gs claims ≡ passes
    → has_role roles claims ≡ true
past_jwt roles gs none some_guard e = cc
past_jwt roles gs (some c) some_guard e = passed_guards roles gs (some c) some_guard e

admitted :
    (roles : List String) (parse : List ℕ → Option Claims) (header query : List ℕ) (r : Route)
    → guarded roles r ≡ true
    → admit parse header query r ≡ passes
    → has_role roles (jwt_auth parse header query) ≡ true
unfolding admit
admitted roles parse header query r safe e =
    past_jwt roles r.guards (jwt_auth parse header query) (ground arith) (ground arith)

-- A request under /api/v1 outside of /auth that is no GET comes to a handler only with a valid token whose
-- role is editor or administrator, whatever the header and the query of the request are.
pub change_needs_role :
    (parse : List ℕ → Option Claims) (header query : List ℕ) (method path : String) (r : Route)
    → find (λ x. x.method == method && x.path == path) api_routes ≡ some r
    → (r.method == "GET") ≡ false
    → admit parse header query r ≡ passes
    → has_role editor_guard (jwt_auth parse header query) ≡ true
change_needs_role parse header query method path r found changes e =
    let safe =
      all-find (λ x. x.method == method && x.path == path)
        (λ x. only_reads x || guarded editor_guard x) api_routes r writes_guarded found in
    admitted editor_guard parse header query r (ground arith) e

abbrev pub is_known : Option Claims → Bool
is_known none = false
is_known (some c) = true

known_past_jwt :
    (gs : List (List String)) (claims : Option Claims)
    → after_jwt gs claims ≡ passes
    → is_known claims ≡ true
known_past_jwt gs none e = cc
known_past_jwt gs (some c) e = refl

-- A request under /api/v1 outside of /auth comes to a handler only with a valid token.
pub api_needs_token :
    (parse : List ℕ → Option Claims) (header query : List ℕ) (method path : String) (r : Route)
    → find (λ x. x.method == method && x.path == path) api_routes ≡ some r
    → admit parse header query r ≡ passes
    → is_known (jwt_auth parse header query) ≡ true
unfolding admit
api_needs_token parse header query method path r found e =
    let asks =
      all-find (λ x. x.method == method && x.path == path) (λ x. x.jwt) api_routes r asks_for_token
        found in
    known_past_jwt r.guards (jwt_auth parse header query) (ground arith)
