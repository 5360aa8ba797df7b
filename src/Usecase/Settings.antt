-- ===== src/Usecase/Settings.antt =====
-- internal/usecase/settings_usecase.go.
use hivepulse.Domain.{GeneralSettings}
use hivepulse.World.{Action}
use hivepulse.Repo.Settings

-- `SettingsUsecase.GetGeneral`
unfoldable pub get_general : Action GeneralSettings
get_general = Settings.get_general

-- `SettingsUsecase.SaveGeneral`
unfoldable pub save_general : GeneralSettings → Action (Unit {0})
save_general = Settings.save_general
