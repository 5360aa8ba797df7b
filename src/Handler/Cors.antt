-- ===== src/Handler/Cors.antt =====
-- internal/adapter/middleware/cors.go.
use hivepulse.Prelude.{ℕ, String, ◌==◌, Option, none, some, List, any, trim_space, if◌then◌else◌}

-- What the middleware sets: the header Access-Control-Allow-Origin, and whether it answers itself, with
-- 204. The other three headers are always the same.
pub record Cors : Type 0 where
  pub allow_origin : Option String
  pub answers : Option ℕ

-- `CORS`, for the allowed origins as `strings.Split` parts them at the commas, and the method and the
-- origin of a request.
unfoldable pub cors : List String → String → String → Cors
unfolding trim_space
cors allowed method origin = record {
  allow_origin = if any (λ a. trim_space a == origin) allowed then some origin else none;
  answers = if method == "OPTIONS" then some 204 else none;
}
