-- ===== src/Usecase/Slug.antt =====
-- `generateSlug` and `computeOverallStatus` of internal/usecase/status_page_usecase.go, over code points.
pub mod Tidy
use hivepulse.Prelude.{
  ℕ, String, ◌==◌, Bool, true, false, not, ◌&&◌, ◌||◌, List, [], ◌∷◌, ◌++◌, any, eqb, leb,
  if◌then◌else◌,
}

-- "-"
abbrev pub dash : ℕ
dash = 45

-- [a-z0-9]
abbrev pub is_alphanumeric : ℕ → Bool
is_alphanumeric c = (leb 97 c && leb c 122) || (leb 48 c && leb c 57)

-- `nonAlphanumRe.ReplaceAllString(lower, "-")`: each run of other characters becomes one dash. The first
-- argument is whether the text goes on with such a run.
unfoldable pub replace_runs : Bool → List ℕ → List ℕ
replace_runs in_run [] = []
replace_runs in_run (c ∷ s) =
    let word = replace_runs false s in
    let run = replace_runs true s in
    if is_alphanumeric c then c ∷ word else if in_run then run else dash ∷ run

-- The two sides of `strings.Trim(clean, "-")`.
unfoldable pub trim_dashes_left : List ℕ → List ℕ
trim_dashes_left [] = []
trim_dashes_left (c ∷ s) = let rest = trim_dashes_left s in if eqb c dash then rest else c ∷ s

abbrev pub cons_trimmed : ℕ → List ℕ → List ℕ
cons_trimmed c [] = if eqb c dash then [] else c ∷ []
cons_trimmed c (d ∷ s) = c ∷ d ∷ s

unfoldable pub trim_dashes_right : List ℕ → List ℕ
trim_dashes_right [] = []
trim_dashes_right (c ∷ s) = cons_trimmed c (trim_dashes_right s)

-- "status", if nothing is left.
abbrev pub or_status : List ℕ → List ℕ
or_status [] = 115 ∷ 116 ∷ 97 ∷ 116 ∷ 117 ∷ 115 ∷ []
or_status (c ∷ s) = c ∷ s

-- `generateSlug`, for a title after `strings.ToLower` and the four random characters.
unfoldable pub generate_slug : List ℕ → List ℕ → List ℕ
generate_slug lower suffix =
    or_status (trim_dashes_right (trim_dashes_left (replace_runs false lower))) ++ dash ∷ suffix

-- `computeOverallStatus`, over the last statuses of the monitors.
unfoldable pub compute_overall_status : List String → String
compute_overall_status statuses =
    if any (λ s. s == "down") statuses
    then "outage"
    else if any (λ s. s == "unknown") statuses
    then "degraded"
    else "operational"
