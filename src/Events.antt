-- ===== src/Events.antt =====
-- internal/events: the events of approved requests, from the Redis stream to PostgreSQL.
pub mod Decode
pub mod Services
pub mod Processor
pub mod Status
pub mod Memory
mod Tests
