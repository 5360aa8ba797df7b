-- ===== src/Repo.antt =====
-- internal/adapter/repo: the statements on the tables, one module for each table. A row that breaks a
-- constraint of migrations/ is refused, and a deletion takes the rows that refer to it along.
pub mod Columns
pub mod Monitors
pub mod Heartbeats
pub mod Incidents
pub mod Windows
pub mod Notifications
pub mod Logs
pub mod Users
pub mod Tokens
pub mod Rows
pub mod Tags
pub mod Stats
pub mod Pages
pub mod Settings
