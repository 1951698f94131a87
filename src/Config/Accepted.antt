-- ===== src/Config/Accepted.antt =====
-- What the loaded configuration satisfies.
use rate_limiter_as_a_servic.Clock.{Duration}
use rate_limiter_as_a_servic.Limiter.{Error, Result, ok, and_then-ok, ok-injective, plain}
use Prim.Native.String.{◌++◌ as append, String}
use rate_limiter_as_a_servic.Base.{ℤ, pos, ◌≡◌, leb_ℤ, true, false, arith, sym}
use rate_limiter_as_a_servic.Breaker.{
  CircuitBreakerConfig, new_circuit_breaker_limiter, closed_breaker,
}
use rate_limiter_as_a_servic.Config.{
  Environment, positive, positive_int, positive_duration, load_circuit_breaker_config, Error,
  Result, ok, err, plain, Duration, get_env,
}

positive-ok :
    (wrong : Error) (r : Result ℤ) (n : ℤ) → positive wrong r ≡ ok n → leb_ℤ n (pos 0) ≡ false
positive-ok wrong (err e) n h = cc
positive-ok wrong (ok m) n h = ground arith

pub positive_int_positive :
    (env : Environment) (name fallback : String) (n : ℤ)
    → positive_int env name fallback ≡ ok n
    → leb_ℤ n (pos 0) ≡ false
unfolding positive_int
positive_int_positive env name fallback n h =
    positive-ok (plain (append name " must be a positive integer"))
      (env.atoi (get_env env name fallback)) n h

pub positive_duration_positive :
    (env : Environment) (name fallback : String) (n : Duration)
    → positive_duration env name fallback ≡ ok n
    → leb_ℤ n (pos 0) ≡ false
unfolding positive_duration
positive_duration_positive env name fallback n h =
    positive-ok (plain (append name " must be a positive duration"))
      (env.parse_duration (get_env env name fallback)) n h

-- Whatever the environment holds, a circuit-breaker configuration that loads is one that the
-- breaker's constructor accepts.
pub load_circuit_breaker_config-accepted :
    (env : Environment) (config : CircuitBreakerConfig)
    → load_circuit_breaker_config env ≡ ok config
    → new_circuit_breaker_limiter true config ≡ ok (closed_breaker config)
unfolding load_circuit_breaker_config new_circuit_breaker_limiter
load_circuit_breaker_config-accepted env config h =
    let (threshold, t, h1) =
      and_then-ok (positive_int env "CIRCUIT_BREAKER_FAILURE_THRESHOLD" "3") _ config h in
    let (open_timeout, o, h2) =
      and_then-ok (positive_duration env "CIRCUIT_BREAKER_OPEN_TIMEOUT" "5s") _ config h1 in
    let (decision_timeout, d, h3) =
      and_then-ok (positive_duration env "RATE_LIMIT_DECISION_TIMEOUT" "300ms") _ config h2 in
    let t0 = positive_int_positive env "CIRCUIT_BREAKER_FAILURE_THRESHOLD" "3" threshold t in
    let o0 = positive_duration_positive env "CIRCUIT_BREAKER_OPEN_TIMEOUT" "5s" open_timeout o in
    let d0 =
      positive_duration_positive env "RATE_LIMIT_DECISION_TIMEOUT" "300ms" decision_timeout d in
    rw (sym (ok-injective h3), t0, o0, d0)
