-- ===== src/Breaker.antt =====
-- internal/ratelimiter/circuit-breaker.go: the circuit breaker around a limiter. Each method that
-- holds the mutex is one step; `now` is what it reads from the clock. Between `startRequest` and
-- the recording of the outcome the mutex is free: `Breaker/Calls.antt` interleaves calls there.
mod Calls
mod Invariant
mod New
mod Probe
pub mod Recover
mod Tests
mod Threshold
use Prim.Native.String.{◌++◌ as append}
use rate_limiter_as_a_servic.Limiter.{
  Error, Result, Key, errors_is, wrapped, Decision, err, invalid_cost, ok, plain,
  cost_exceeds_limit, sentinel, no_policy, unavailable, event_backlog_full, sentinel_text,
  error_text,
}
use rate_limiter_as_a_servic.Clock.{Duration, Time, zero_time, sub}
use rate_limiter_as_a_servic.Base.{
  ℤ, pos, Bool, false, if◌then◌else◌, Option, not, true, add64, some, ◌||◌, ltb_ℤ, leb_ℤ, none,
}

pub record CircuitBreakerConfig : Type 0 where
  pub failure_threshold : ℤ
  pub open_timeout : Duration
  pub decision_timeout : Duration

pub data CircuitState : Type 0 where
  circuit_closed circuit_open circuit_half_open : CircuitState

-- The guarded fields. The limiter inside is an argument of `allow`.
pub record CircuitBreakerLimiter : Type 0 where
  pub config : CircuitBreakerConfig
  pub state : CircuitState
  pub failures : ℤ
  pub opened_at : Time
  pub probe_running : Bool

abbrev pub closed_breaker : CircuitBreakerConfig → CircuitBreakerLimiter
closed_breaker config = record {
  config = config;
  state = circuit_closed;
  failures = pos 0;
  opened_at = zero_time;
  probe_running = false;
}

-- `has_limiter` tells that `limiter` is not nil.
unfoldable pub new_circuit_breaker_limiter :
    Bool → CircuitBreakerConfig → Result CircuitBreakerLimiter
new_circuit_breaker_limiter has_limiter config =
    if not has_limiter
    then err (plain "limiter is required")
    else if leb_ℤ config.failure_threshold (pos 0)
    then err (plain "circuit-breaker failure threshold must be greater than zero")
    else if leb_ℤ config.open_timeout (pos 0)
    then err (plain "circuit-breaker open timeout must be greater than zero")
    else if leb_ℤ config.decision_timeout (pos 0)
    then err (plain "rate-limit decision timeout must be greater than zero")
    else ok (closed_breaker config)

abbrev pub is_closed : CircuitState → Bool
is_closed circuit_closed = true
is_closed _ = false

abbrev pub is_open : CircuitState → Bool
is_open circuit_open = true
is_open _ = false

unfoldable pub ready : CircuitBreakerLimiter → Time → Bool
ready l now = not (is_open l.state) || leb_ℤ l.config.open_timeout (sub now l.opened_at)

-- The end of `startRequest`: one probe at a time.
unfoldable pub start_probe : CircuitBreakerLimiter → Bool × CircuitBreakerLimiter
start_probe l = if l.probe_running then (false, l) else (true, record l { probe_running = true })

start_request_in : CircuitState → CircuitBreakerLimiter → Time → Bool × CircuitBreakerLimiter
start_request_in circuit_closed l now = (true, l)
start_request_in circuit_open l now =
    if ltb_ℤ (sub now l.opened_at) l.config.open_timeout
    then (false, l)
    else start_probe (record l { state = circuit_half_open })
start_request_in circuit_half_open l now = start_probe l

unfoldable pub start_request : CircuitBreakerLimiter → Time → Bool × CircuitBreakerLimiter
unfolding start_request_in
start_request l now = start_request_in l.state l now

unfoldable pub record_success : CircuitBreakerLimiter → CircuitBreakerLimiter
record_success l = record l { state = circuit_closed; failures = pos 0; probe_running = false }

-- `open`, which is called under the mutex.
unfoldable pub open_circuit : CircuitBreakerLimiter → Time → CircuitBreakerLimiter
open_circuit l now = record l { state = circuit_open; opened_at = now }

-- The failure of a call that ends while the circuit is not half-open.
unfoldable pub count_failure : CircuitBreakerLimiter → Time → CircuitBreakerLimiter
count_failure l now =
    let failures = add64 l.failures (pos 1) in
    let counted = record l { failures = failures } in
    if leb_ℤ l.config.failure_threshold failures then open_circuit counted now else counted

abbrev pub is_half_open : CircuitState → Bool
is_half_open circuit_half_open = true
is_half_open _ = false

unfoldable pub record_failure : CircuitBreakerLimiter → Time → CircuitBreakerLimiter
record_failure l now =
    let idle = record l { probe_running = false } in
    if is_half_open l.state then open_circuit idle now else count_failure idle now

unfoldable pub cancel_probe : CircuitBreakerLimiter → CircuitBreakerLimiter
cancel_probe l = record l {
  state = if is_half_open l.state then circuit_open else l.state;
  probe_running = false;
}

unfoldable pub is_request_error : Error → Bool
is_request_error e =
    errors_is e invalid_cost
    || errors_is e cost_exceeds_limit
    || errors_is e no_policy
    || errors_is e event_backlog_full

-- `fmt.Errorf("%w: %v", ErrUnavailable, err)`
abbrev pub unavailable_because : Error → Error
unavailable_because e =
    wrapped (append (sentinel_text unavailable) (append ": " (error_text e))) (sentinel unavailable)

abbrev pub is_done : Option Error → Bool
is_done none = false
is_done (some _) = true

-- `Allow` after the limiter has answered. `ctx_err` is `ctx.Err()` then, and `now` the time.
unfoldable pub finish :
    CircuitBreakerLimiter
    → Result Decision
    → Option Error
    → Time
    → Result Decision × CircuitBreakerLimiter
finish l (ok decision) ctx_err now = (ok decision, record_success l)
finish l (err e) ctx_err now =
    if is_request_error e || is_done ctx_err
    then (err e, cancel_probe l)
    else (err (unavailable_because e), record_failure l now)

-- A call of `Allow` that no other call interrupts, around a limiter with states `S`: `answer` is
-- its answer under the decision timeout.
module _ {S : Type 0} (inner : S → Key → ℤ → Result Decision × S) where
  unfoldable pub allow :
      CircuitBreakerLimiter
      → S
      → Key
      → ℤ
      → (started ended : Time) → Option Error
      → Result Decision × CircuitBreakerLimiter × S
  allow l s key cost started ended ctx_err =
      let (admitted, l') = start_request l started in
      let (answer, s') = inner s key cost in
      let (result, l'') = finish l' answer ctx_err ended in
      if admitted then (result, l'', s') else (err (sentinel unavailable), l', s)
