-- ===== src/Domain/Pages.antt =====
-- internal/domain/tag.go and status_page.go.
use hivepulse.Prelude.{String, List}
use hivepulse.Domain.Monitoring.{Time}

pub record Tag : Type 0 where
  pub id : String
  pub name : String
  pub color : String
  pub created_at : Time

pub record StatusPage : Type 0 where
  pub id : String
  pub slug : String
  pub title : String
  pub description : String
  pub logo_url : String
  pub accent_color : String
  pub custom_domain : String
  pub tag_ids : List String
  pub created_at : Time
  pub updated_at : Time
