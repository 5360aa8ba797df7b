-- ===== src/Handler.antt =====
-- internal/adapter/handler: what a request makes of the usecases.
pub mod Replies
pub mod Channels
pub mod Sessions
pub mod Accounts
pub mod Maintenance
pub mod Tags
pub mod Incidents
pub mod Pages
pub mod Monitors
pub mod Settings
pub mod Cors
pub mod Guards
pub mod Routes
pub mod Socket
pub mod RateLimit
