-- ===== src/Repo/Settings.antt =====
-- internal/adapter/repo/settings_repo.go: the row "timezone" of the table app_settings. `none` stands for a
-- row that is not there, or whose JSON is no text.
use hivepulse.Prelude.{String, Option, none, some}
use hivepulse.Domain.{Result, ok, err, GeneralSettings}
use hivepulse.World.{Action, fetch, execute}

abbrev settings_of : Result (Option String) → Result GeneralSettings
settings_of (err e) = ok (record { timezone = "UTC" })
settings_of (ok none) = ok (record { timezone = "UTC" })
settings_of (ok (some zone)) = ok (record { timezone = zone })

-- `SettingsRepo.GetGeneral`
unfoldable pub get_general : Action GeneralSettings
get_general w = let (r, w1) = fetch (λ d. ok d.timezone) w in (settings_of r, w1)

-- `SettingsRepo.SaveGeneral`
unfoldable pub save_general : GeneralSettings → Action (Unit {0})
save_general s = execute (λ d. record d { timezone = some s.timezone })
