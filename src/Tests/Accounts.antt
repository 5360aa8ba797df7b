-- ===== src/Tests/Accounts.antt =====
-- The first account, and a session of it.
use hivepulse.Prelude.{String, ◌==◌, ◌≡◌, refl, true, ◌&&◌, any}
use hivepulse.Domain.{ok, is_ok}
use hivepulse.Repo.Users
use hivepulse.Repo.Tokens
use hivepulse.Repo.Users.{has_user}
use hivepulse.Usecase.Auth.{Secrets, login, generate_access_token, issue_refresh_token}
use hivepulse.Usecase.Auth.Accounts.{opens, login_needs_password}
use hivepulse.Tests.Data.{world}
use hivepulse.Prelude.{if◌then◌else◌}

abbrev old_hash : String
old_hash = "#old"

abbrev new_hash : String
new_hash = "#new"

abbrev hash_of : String → String
hash_of raw = if raw == "old" then old_hash else new_hash

abbrev secrets : Secrets
secrets = record {
  hash_password = λ p. ok "#pw";
  password_matches = λ hash p. hash == "#pw" && p == "pw";
  sign = λ id role t. ok role;
  hash_token = hash_of;
  access_expiry = 900;
  refresh_expiry = 86400;
}

logged_in : is_ok (login secrets (ok "fresh") "a@b.c" "pw" "fp" "::1" world).0 ≡ true
unfolding login generate_access_token issue_refresh_token Users.find_by_email Tokens.create
logged_in = refl

login_needs_password_example : any (opens secrets "a@b.c" "pw") world.db.users ≡ true
login_needs_password_example =
    login_needs_password secrets (ok "fresh") "a@b.c" "pw" "fp" "::1" world logged_in
