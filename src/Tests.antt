-- ===== src/Tests.antt =====
-- Concrete runs of the theorems, by the part that they are about.
mod Data
mod Checks
mod Alerts
mod Jobs
mod Accounts
mod Requests
mod Rollups
mod Dashboards
mod Doors
mod Pages
mod Shown
mod Program
mod Settings
mod Tags
mod Races
mod Alarm
mod Certificates
