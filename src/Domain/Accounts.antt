-- ===== src/Domain/Accounts.antt =====
-- internal/domain/user.go.
use hivepulse.Prelude.{String}
use hivepulse.Domain.Monitoring.{Time}

abbrev pub role_admin : String
role_admin = "admin"

abbrev pub role_editor : String
role_editor = "editor"

abbrev pub role_viewer : String
role_viewer = "viewer"

pub record User : Type 0 where
  pub id : String
  pub email : String
  pub name : String
  pub password_hash : String
  pub role : String
  pub created_at : Time
  pub updated_at : Time

pub record RefreshToken : Type 0 where
  pub id : String
  pub user_id : String
  pub token_hash : String
  pub device_fp : String
  pub ip : String
  pub expires_at : Time
  pub created_at : Time
