-- ===== src/Tests/Races.antt =====
-- Checks and requests that overlap.
use hivepulse.Prelude.{
  ℕ, ◌+◌, String, ◌==◌, ◌≡◌, ◌≢◌, ◌∙◌, refl, true, false, some, [], ◌∷◌, any, select, length, arith,
  eq_iff,
}
use mathlib.Core.Option
use hivepulse.Domain.{hour, ok, err, is_ok, unauthorized, Monitor, Heartbeat, role_admin}
use hivepulse.World.{World}
use hivepulse.Tasks.{done, weave, Leads}
use hivepulse.Repo.Tokens.{has_hash}
use hivepulse.Repo.Windows.{covers}
use hivepulse.Usecase.Checker.{run_check}
use hivepulse.Usecase.Checker.Steps.{found_in, has_open}
use hivepulse.Usecase.Checker.OneOpen.{OneOpen}
use hivepulse.Usecase.Checker.Task.{check_task}
use hivepulse.Usecase.Checker.Overlap.{started_checks, overlapping_checks-OneOpen}
use hivepulse.Usecase.Checker.Stuck.{overlap_leaves_open}
use hivepulse.Usecase.Auth.{Secrets, refresh, generate_access_token, issue_refresh_token}
use hivepulse.Usecase.Auth.Spent.{refreshes, spent_stays_spent}
use hivepulse.Repo.Users
use hivepulse.Repo.Tokens
use hivepulse.Usecase.Auth.Task.{setup_task, refresh_task}
use hivepulse.Usecase.Auth.Races.{setup_twice, refresh_twice}
use hivepulse.Tests.Data.{
  start, site, owner, session, tables, world, world_of, empty_world, only_http, beat, flaky,
}

world-OneOpen : OneOpen world
world-OneOpen = record { at = λ k. ground (arith, eq_iff "m1" k) }

-- Two checks of one monitor and one of another, which take turns.
overlapping_checks_example :
    OneOpen
      (weave
        (0 ∷ 1 ∷ 2 ∷ 1 ∷ 0 ∷ 0 ∷ 1 ∷ 2 ∷ 1 ∷ 0 ∷ 0 ∷ 1 ∷ 1 ∷ 0 ∷ [])
        (started_checks true
          ((only_http flaky, "m1") ∷ (only_http flaky, "m1") ∷ (only_http flaky, "m2") ∷ []))
        world).1
overlapping_checks_example =
    overlapping_checks-OneOpen true
      ((only_http flaky, "m1") ∷ (only_http flaky, "m1") ∷ (only_http flaky, "m2") ∷ [])
      (0 ∷ 1 ∷ 2 ∷ 1 ∷ 0 ∷ 0 ∷ 1 ∷ 2 ∷ 1 ∷ 0 ∷ 0 ∷ 1 ∷ 1 ∷ 0 ∷ []) world world-OneOpen

abbrev well : Monitor
well = record site { last_status = "up" }

abbrev well_world : World
well_world = world_of (record (tables []) { monitors = well ∷ []; incidents = [] })

abbrev fails : ℕ → Monitor → Heartbeat
fails i k = beat "down" start

abbrev answers : ℕ → Monitor → Heartbeat
answers i k = beat "up" (start + hour)

is_down : (i : ℕ) → ((fails i well).status == "down") ≡ true
is_down i = refl

is_up : (i : ℕ) (k : Monitor) → ((answers i k).status == "up") ≡ true
is_up i k = refl

clear : (i : ℕ) → any (covers "m1" (fails i well).checked_at) well_world.db.windows ≡ false
clear i = refl

clear' :
    (i : ℕ) (k : Monitor) → any (covers "m1" (answers i k).checked_at) well_world.db.windows ≡ false
clear' i k = refl

overlap_leaves_open_example :
    (v : World) × (v2 : World) × Leads
      (check_task (only_http fails) true "m1" ∷ check_task (only_http answers) true "m1" ∷ [])
      well_world
      (done true ∷ done true ∷ [])
      v
    × (run_check (only_http answers) true "m1" (record v { now = start + hour }) ≡ some v2)
    × (has_open "m1" v2 ≡ true)
    × (Option.map (λ x. x.last_status) (found_in "m1" v2) ≡ some "up")
    × (v2.spawned ≡ v.spawned)
overlap_leaves_open_example =
    overlap_leaves_open (only_http fails) (only_http answers) true "m1" well well_world fails
      answers 2 refl refl refl refl refl refl refl (start + hour) refl is_down is_up clear clear'

-- Each random token is its own hash.
abbrev plain : Secrets
plain = record {
  hash_password = λ p. ok p;
  password_matches = λ hash p. hash == p;
  sign = λ id role t. ok role;
  hash_token = λ t. t;
  access_expiry = 900;
  refresh_expiry = 86400;
}

abbrev ada : String
ada = "a"

abbrev bob : String
bob = "b"

differ : ada ≢ bob
differ e = ground (arith, eq_iff ada bob)

setup_twice_example :
    (v : World) × Leads
      (setup_task plain "Ada" "a" "pw" ∷ setup_task plain "Bob" "b" "wp" ∷ [])
      empty_world
      (done (ok tt) ∷ done (ok tt) ∷ [])
      v
    × (length (select (λ u. u.role == role_admin) v.db.users) ≡ 2)
setup_twice_example =
    setup_twice plain "Ada" "a" "pw" "pw" "Bob" "b" "wp" "wp" empty_world refl refl differ refl refl

refresh_twice_example :
    (v : World) × Leads
      (refresh_task plain (ok "a") "#old" ∷ refresh_task plain (ok "b") "#old" ∷ [])
      world
      (done (ok ("admin", "a")) ∷ done (ok ("admin", "b")) ∷ [])
      v
    × (any (has_hash "a") v.db.tokens ≡ true)
    × (any (has_hash "b") v.db.tokens ≡ true)
refresh_twice_example =
    refresh_twice plain "#old" "a" "b" "admin" session owner world refl refl refl refl refl refl
      refl differ

exchanged : is_ok (refresh plain (ok ada) "#old" world).0 ≡ true
unfolding refresh generate_access_token issue_refresh_token Users.find_by_id Tokens.find_by_hash
    Tokens.delete_by_hash Tokens.create
exchanged = refl

new_token_differs : (r : String) → ok ada ≡ ok r → r ≢ "#old"
new_token_differs r e f =
    let same : ada ≡ r = cc in
    let clash : ada ≡ "#old" = same ∙ f in ground (arith, eq_iff ada "#old")

spent_stays_spent_example :
    (refresh plain
      (ok bob)
      "#old"
      (weave
        (0 ∷ 1 ∷ 0 ∷ 1 ∷ 0 ∷ 1 ∷ 0 ∷ 1 ∷ 0 ∷ 1 ∷ [])
        (refreshes plain ((ok ada, "#old") ∷ (ok ada, ada) ∷ []))
        (refresh plain (ok ada) "#old" world).1).1).0
    ≡ err unauthorized
spent_stays_spent_example =
    spent_stays_spent plain (ok ada) (ok bob) "#old" ((ok ada, "#old") ∷ (ok ada, ada) ∷ [])
      (0 ∷ 1 ∷ 0 ∷ 1 ∷ 0 ∷ 1 ∷ 0 ∷ 1 ∷ 0 ∷ 1 ∷ []) world new_token_differs
      (new_token_differs, (new_token_differs, tt)) exchanged
