-- ===== src/Usecase.antt =====
-- internal/usecase: what the application does, over the tables of Repo.
pub mod Checker
pub mod Monitor
pub mod Schedule
pub mod Notification
pub mod Auth
pub mod Slug
pub mod Stats
pub mod Pages
pub mod Settings
pub mod Tag
