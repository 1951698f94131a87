-- ===== src/Worker.antt =====
-- cmd/worker: the process that moves approval events to PostgreSQL.
pub mod Config
pub mod Monitor
pub mod Loop
pub mod Health
pub mod Start
mod Tests
