-- ===== src/Program/Web.antt =====
-- cmd/oss/main.go: what the server answers outside of /api/v1, and the daily cleanup.
use hivepulse.Prelude.{
  ℕ, String, Bool, true, false, not, Option, none, some, List, [], ◌∷◌, if◌then◌else◌,
}
use hivepulse.Domain.{ok, err, Time}
use hivepulse.World.{World}
use hivepulse.Repo.Windows
use hivepulse.Handler.Routes.{Route, route}

-- The routes that are registered before the group /api/v1.
abbrev pub public_routes : List Route
public_routes =
    route "GET" "/health" false []
    ∷ route "GET" "/swagger/*any" false []
    ∷ route "GET" "/api/v1/status-pages/public/:slug" false []
    ∷ []

-- What `staticFS.Open` finds at a path: nothing, or a file of which `Stat` says whether it is a directory.
pub data Opened : Type 0 where
  absent : Opened
  unstated : Opened
  opened : Bool → Opened

-- Whether the file server is asked for the path itself.
abbrev exact : Opened → Bool
exact absent = false
exact unstated = true
exact (opened is_dir) = not is_dir

-- `serveFrontend`: the path that the file server is asked for. `relative` is `path[1:]`.
unfoldable pub serve_frontend : (String → Opened) → String → String → String
serve_frontend open_file relative path = if exact (open_file relative) then path else "/"

-- One tick of the cleanup: what was deleted; `month_before` is `AddDate(0, -1, 0)`.
unfoldable pub clean_windows : (Time → Time) → World → Option ℕ × World
clean_windows month_before w =
    let (r, w1) = Windows.delete_expired_before (month_before w.now) w in
    (elim r [ err e ↦ none | ok n ↦ some n ], w1)
