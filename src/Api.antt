-- ===== src/Api.antt =====
-- cmd/api: the HTTP API around the limiter.
pub mod Reports
pub mod Analytics
pub mod Check
pub mod Health
pub mod Start
pub mod Service
pub mod Http
pub mod Metrics
mod Tests
