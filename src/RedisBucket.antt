-- ===== src/RedisBucket.antt =====
-- internal/ratelimiter/redis-token-bucket.go: token buckets in Redis, which every API instance shares.
-- RedisBucket/Server.antt has what it uses of Redis, RedisBucket/Script.antt the Lua script, which Redis
-- runs as one step, and RedisBucket/Limiter.antt the limiter around it.
pub mod Server
pub mod Script
pub mod Limiter
pub mod Keys
pub mod Recorded
pub mod Encoding
pub mod Memory
mod Tests
