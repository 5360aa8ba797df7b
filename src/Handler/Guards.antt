-- ===== src/Handler/Guards.antt =====
-- internal/adapter/middleware/jwt.go and role_guard.go: who gets past.
use hivepulse.Prelude.{ℕ, String, ◌==◌, Option, none, some, List, [], ◌∷◌, any, eqb, if◌then◌else◌}
use hivepulse.Domain.{role_admin, role_editor}

-- The claims that `JWTAuth` reads; a role that is no string is none.
pub record Claims : Type 0 where
  pub sub : String
  pub role : Option String

-- A handler goes on, or ends the request with a status. `RoleGuard` panics at a role that is no string.
pub data Verdict : Type 0 where
  passes : Verdict
  refused : ℕ → Verdict
  panics : Verdict

-- `strings.HasPrefix` and `strings.TrimPrefix`, over code points: what follows the prefix.
unfoldable pub after_prefix : List ℕ → List ℕ → Option (List ℕ)
after_prefix [] s = some s
after_prefix (p ∷ ps) [] = none
after_prefix (p ∷ ps) (c ∷ s) = let rest = after_prefix ps s in if eqb p c then rest else none

-- "Bearer "
abbrev pub bearer : List ℕ
bearer = 66 ∷ 101 ∷ 97 ∷ 114 ∷ 101 ∷ 114 ∷ 32 ∷ []

abbrev or_query : List ℕ → List ℕ → List ℕ
or_query [] query = query
or_query (c ∷ s) query = c ∷ s

abbrev of_header : Option (List ℕ) → List ℕ
of_header none = []
of_header (some s) = s

-- The token of a request: from the header, or else from the query.
unfoldable pub token_of : List ℕ → List ℕ → List ℕ
token_of header query = or_query (of_header (after_prefix bearer header)) query

abbrev parsed : (List ℕ → Option Claims) → List ℕ → Option Claims
parsed parse [] = none
parsed parse (c ∷ s) = parse (c ∷ s)

-- `JWTAuth`: the claims, or none for status 401. `parse` is `jwt.Parse` with the secret, for tokens that
-- are valid and signed by HMAC.
unfoldable pub jwt_auth : (List ℕ → Option Claims) → List ℕ → List ℕ → Option Claims
jwt_auth parse header query = parsed parse (token_of header query)

abbrev pub guard_role : List String → Option String → Verdict
guard_role allowed none = panics
guard_role allowed (some role) = if any (λ r. role == r) allowed then passes else refused 403

-- `RoleGuard`, with the claims if `JWTAuth` went before.
unfoldable pub role_guard : List String → Option Claims → Verdict
role_guard allowed none = refused 403
role_guard allowed (some c) = guard_role allowed c.role

abbrev pub editor_guard : List String
editor_guard = role_editor ∷ role_admin ∷ []

abbrev pub admin_guard : List String
admin_guard = role_admin ∷ []
