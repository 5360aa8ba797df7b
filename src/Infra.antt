-- ===== src/Infra.antt =====
-- internal/infrastructure: the scheduler, the hub of the dashboards, the aggregation and the
-- certificate checks.
pub mod Scheduler
pub mod Aggregator
pub mod Hub
pub mod SslChecker
