-- ===== src/Service.antt =====
-- internal/adapter/service: the probes of each type of check, and the senders of notifications. What the
-- network answers is a parameter.
pub mod Text
pub mod Http
pub mod Probes
pub mod Senders
