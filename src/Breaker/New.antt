-- ===== src/Breaker/New.antt =====
-- The construction of the circuit breaker.
use rate_limiter_as_a_servic.Limiter.{ok}
use rate_limiter_as_a_servic.Breaker.{
  new_circuit_breaker_limiter, CircuitBreakerConfig, ok, closed_breaker,
}
use rate_limiter_as_a_servic.Base.{pos, Bool, ◌≡◌, ◌↔◌, true, ◌<ℤ◌, arith}

-- The constructor succeeds exactly with a limiter and a positive threshold, open timeout and
-- decision timeout; the circuit is then closed, with no failure and no probe.
pub new_circuit_breaker_limiter_iff :
    (has_limiter : Bool) (config : CircuitBreakerConfig)
    → (new_circuit_breaker_limiter has_limiter config ≡ ok (closed_breaker config))
      ↔ (has_limiter ≡ true)
        × (pos 0 <ℤ config.failure_threshold)
        × (pos 0 <ℤ config.open_timeout)
        × (pos 0 <ℤ config.decision_timeout)
unfolding new_circuit_breaker_limiter
new_circuit_breaker_limiter_iff has_limiter config = ground arith
