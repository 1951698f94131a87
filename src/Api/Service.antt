-- ===== src/Api/Service.antt =====
-- cmd/api/main.go puts the circuit breaker around the Redis limiter, and cmd/api/check.go calls it:
-- a check from the HTTP request to Redis and back.
pub mod Recorded
pub mod Defaults
pub mod Shipped
pub mod Kept
mod Numbered
mod Tests
use rate_limiter_as_a_servic.Clock.{Time, Duration}
use rate_limiter_as_a_servic.Limiter.{Error, Result, Decision, Key}
use rate_limiter_as_a_servic.Base.{ℤ, String, Option}
use rate_limiter_as_a_servic.Floats.{Float64}
use rate_limiter_as_a_servic.RedisBucket.Server.{Redis, LuaText}
use rate_limiter_as_a_servic.RedisBucket.Limiter
use rate_limiter_as_a_servic.RedisBucket.Limiter.{RedisTokenBucketRateLimiter, Delivery}
use rate_limiter_as_a_servic.Breaker
use rate_limiter_as_a_servic.Breaker.{CircuitBreakerLimiter}
use rate_limiter_as_a_servic.Api.Http.{CheckRateLimitPayload, RequestBody, ResponseWriter}
use rate_limiter_as_a_servic.Api.Check.{Handled, check_rate_limit}

-- How a check goes: when the breaker reads its clock, what happens to the call of Redis, and
-- `ctx.Err()` before that call and after it.
pub record Passage : Type 0 where
  pub started : Time
  pub ended : Time
  pub delivery : Delivery
  pub err_before : Option Error
  pub err_after : Option Error

module _ (N : Float64) (T : LuaText N) (S : Redis) (encode : String → String)
    (l : RedisTokenBucketRateLimiter) where
  -- The breaker and Redis.
  abbrev pub Backend : Type 0
  Backend = CircuitBreakerLimiter × S.R

  abbrev pub redis_limiter : Passage → S.R → Key → ℤ → Result Decision × S.R
  redis_limiter passage r key cost =
      Limiter.allow N T S encode l r passage.delivery passage.err_before key cost

  -- The `rateLimiter` of the application.
  unfoldable pub rate_limiter : Passage → Backend → Key → ℤ → Result Decision × Backend
  rate_limiter passage (breaker, r) key cost =
      let (answer, breaker', r') =
        Breaker.allow (redis_limiter passage) breaker r key cost passage.started passage.ended
          passage.err_after in
      (answer, (breaker', r'))

  abbrev pub check :
      (CheckRateLimitPayload → Option Error)
      → Duration
      → Passage
      → Backend
      → ResponseWriter
      → RequestBody
      → Handled × Backend
  check validate_struct open_timeout passage backend w body =
      check_rate_limit validate_struct (rate_limiter passage) open_timeout backend w body
