-- ===== src/Api/Health.antt =====
-- cmd/api/health.go, and the readiness check of cmd/api/redis.go.
pub mod Readiness
use rate_limiter_as_a_servic.Clock.{Time}
use rate_limiter_as_a_servic.Limiter.{Error, sentinel, unavailable}
use rate_limiter_as_a_servic.Base.{ℕ, String, Option, none, some, not, if◌then◌else◌}
use rate_limiter_as_a_servic.Breaker.{CircuitBreakerLimiter, ready}
use rate_limiter_as_a_servic.Api.Http.{
  ResponseWriter, Body, health_body, write_json, internal_server_error,
}

abbrev pub version : String
version = "0.1.0"

-- A handler's end: an answer that cannot be written is answered by an error.
abbrev pub sent_or_error : Option Error × ResponseWriter → ResponseWriter
sent_or_error (none, w) = w
sent_or_error (some e, w) = internal_server_error w e

unfoldable pub health_check_handler : String → ResponseWriter → ResponseWriter
health_check_handler env w = sent_or_error (write_json w 200 (health_body "ok" env version))

-- The body and the status of the readiness answer; `check` is what `readinessCheck` answers, if it
-- is not nil.
abbrev pub readiness_answer : String → Option (Option Error) → ℕ × Body
readiness_answer env none = (200, health_body "ready" env version)
readiness_answer env (some none) = (200, health_body "ready" env version)
readiness_answer env (some (some e)) = (503, health_body "not ready" env version)

unfoldable pub readiness_check_handler :
    String → Option (Option Error) → ResponseWriter → ResponseWriter
readiness_check_handler env check w =
    let (status, response) = readiness_answer env check in
    sent_or_error (write_json w status response)

-- What `newRedisReadinessCheck` returns; `ping` is the answer of PING under the timeout.
unfoldable pub redis_readiness_check : CircuitBreakerLimiter → Time → Option Error → Option Error
redis_readiness_check limiter now ping =
    if not (ready limiter now) then some (sentinel unavailable) else ping
