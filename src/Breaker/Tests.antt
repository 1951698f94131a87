-- ===== src/Breaker/Tests.antt =====
-- Tests of the circuit breaker, and its theorems at concrete inputs.
use rate_limiter_as_a_servic.Clock.{Time, sub}
use rate_limiter_as_a_servic.Limiter.{
  Decision, Key, Error, Result, ok, err, plain, errors_is, unavailable, sentinel,
}
use rate_limiter_as_a_servic.Breaker.{
  CircuitBreakerConfig, closed_breaker, circuit_half_open, start_request, allow, circuit_open,
  record_failure, start_probe, Time, ok, err, finish, unavailable_because, CircuitBreakerLimiter,
  count_failure, sub, plain, open_circuit, is_request_error, errors_is, unavailable, cancel_probe,
}
use rate_limiter_as_a_servic.Base.{
  ℤ, pos, ℕ, false, ◌≤◌, List, ◌*◌, ◌∷◌, true, ◌≡◌, [], arith, suc, none, ◌-ℤ◌, add64, int_laws,
  refl, ◌+ℤ◌, ◌⊎◌, ◌||◌,
}
use rate_limiter_as_a_servic.Breaker.Calls.{
  System, Reach, Step, tick, start, end_call, here, next, fails, cancels, probes, Call,
}
use rate_limiter_as_a_servic.Breaker.Probe.{probes-le-one, idle_system}
use rate_limiter_as_a_servic.Breaker.Threshold.{
  Trial, given_up, verdict, after_trials, Shows, after_trials-Shows,
}
use rate_limiter_as_a_servic.Breaker.Recover.{allow-ok, allow-err, IsTurnedAway}

abbrev seconds : ℕ → ℤ
seconds n = pos (n * 1_000_000_000)

abbrev config : CircuitBreakerConfig
config = record {
  failure_threshold = pos 1;
  open_timeout = seconds 5;
  decision_timeout = seconds 1;
}

abbrev twice : CircuitBreakerConfig
twice = record config { failure_threshold = pos 2 }

-- One call fails, and after the open timeout a probe is let through.
abbrev begun : System
begun = record (idle_system config (seconds 0)) {
  calls = record { began = seconds 0; probe = false } ∷ [];
}

abbrev failed : System
failed = record {
  breaker = record (closed_breaker config) {
    state = circuit_open;
    failures = pos 1;
    opened_at = seconds 0;
  };
  clock = seconds 0;
  calls = [];
}

abbrev waited : System
waited = record failed { clock = seconds 5 }

abbrev probing : System
probing = record {
  breaker = record (failed.breaker) { state = circuit_half_open; probe_running = true };
  clock = seconds 5;
  calls = record { began = seconds 5; probe = true } ∷ [];
}

failing : Reach (idle_system config (seconds 0)) failed
unfolding start_request record_failure count_failure open_circuit add64 ◌+ℤ◌
failing =
    next (next here (start refl) (omega int_laws))
      (end_call [] (record { began = seconds 0; probe = false }) [] fails refl) tt

abbrev probed : Step waited probing
unfolding start_request start_probe sub ◌-ℤ◌
probed = start refl

Reach-probing : Reach (idle_system config (seconds 0)) probing
unfolding start_request start_probe sub ◌-ℤ◌
Reach-probing =
    next (next failing (tick (seconds 5) (omega int_laws)) tt) (start refl) (omega int_laws)

probes-le-one_example :
    (probes probing.calls ≤ 1)
    × (probing.breaker.state ≡ circuit_half_open
        → ((c : Call) × (probing.calls ≡ c ∷ []))
          × ((start_request probing.breaker probing.clock).0 ≡ false))
probes-le-one_example =
    probes-le-one config (seconds 0) probing (omega arith) (omega arith) Reach-probing

-- A limiter that approves, and one whose dependency fails; the state counts the calls.
abbrev approval : Decision
approval = record {
  allowed = true;
  limit = pos 3;
  remaining = pos 2;
  reset_at = seconds 60;
  retry_after_ms = pos 0;
}

abbrev approving : ℕ → Key → ℤ → Result Decision × ℕ
approving n key cost = (ok approval, suc n)

abbrev failing_limiter : ℕ → Key → ℤ → Result Decision × ℕ
failing_limiter n key cost = (err (plain "connection refused"), suc n)

abbrev client : Key
client = record { client_id = "client-a"; resource = "openai" }

allow-ok_example : approving 0 client (pos 1) ≡ (
  ok approval,
  (allow approving waited.breaker 0 client (pos 1) (seconds 5) (seconds 5) none).2,
)
unfolding allow finish start_request start_probe sub ◌-ℤ◌
allow-ok_example =
    allow-ok approving waited.breaker 0 client (pos 1) (seconds 5) (seconds 5) none approval refl

abbrev failure : Error
failure = unavailable_because (plain "connection refused")

abbrev after_failure : Result Decision × CircuitBreakerLimiter × ℕ
after_failure = allow failing_limiter waited.breaker 0 client (pos 1) (seconds 5) (seconds 6) none

allow-err_example :
    ((failure ≡ sentinel unavailable)
      × IsTurnedAway failing_limiter waited.breaker 0
          (seconds 5)
          (after_failure.1, after_failure.2))
    ⊎ ((((failing_limiter 0 client (pos 1)).0 ≡ err failure)
          × ((is_request_error failure || false) ≡ true)
          × (after_failure.1 ≡ cancel_probe (start_request waited.breaker (seconds 5)).1))
        ⊎ ((cause : Error) × ((failing_limiter 0 client (pos 1)).0 ≡ err cause)
            × ((is_request_error cause || false) ≡ false)
            × (errors_is failure unavailable ≡ true)
            × (after_failure.1
                ≡ record_failure (start_request waited.breaker (seconds 5)).1 (seconds 6))))
unfolding allow finish start_request start_probe sub ◌-ℤ◌ is_request_error errors_is
allow-err_example =
    allow-err failing_limiter waited.breaker 0 client (pos 1) (seconds 5) (seconds 6) none failure
      refl

abbrev trial : ℕ → Result Decision → Trial
trial at answer = record {
  key = client;
  cost = pos 1;
  started = seconds at;
  ended = seconds at;
  answer = answer;
  ctx_err = none;
}

abbrev refused_connection : Result Decision
refused_connection = err (plain "connection refused")

-- Newest first: two failures open the circuit at 2 seconds, a call at 3 seconds is refused, and the
-- probe at 7 seconds fails.
abbrev trials : List Trial
trials =
    trial 7 refused_connection
    ∷ trial 3 (ok approval)
    ∷ trial 2 refused_connection
    ∷ trial 1 refused_connection
    ∷ trial 0 (ok approval)
    ∷ []

given_up_at_seven : verdict twice trials ≡ given_up (seconds 7)
unfolding verdict is_request_error errors_is ◌+ℤ◌
given_up_at_seven = refl

after_trials-Shows_example :
    Shows twice (after_trials (closed_breaker twice) trials) (verdict twice trials)
after_trials-Shows_example =
    after_trials-Shows twice (omega arith) (omega arith) (omega arith) (omega arith) trials

-- With a decision timeout of at least the open timeout, which the constructor accepts, two probes
-- can be in flight: a call from before the opening ends in between.
abbrev slow : CircuitBreakerConfig
slow = record config { decision_timeout = seconds 10 }

abbrev two_running : System
two_running = record {
  breaker = record (closed_breaker slow) {
    state = circuit_half_open;
    failures = pos 1;
    opened_at = seconds 0;
    probe_running = true;
  };
  clock = seconds 5;
  calls =
      record { began = seconds 5; probe = true } ∷ record { began = seconds 5; probe = true } ∷ [];
}

abbrev old_call : Call
old_call = record { began = seconds 0; probe = false }

two_probes : Reach (idle_system slow (seconds 0)) two_running × (probes two_running.calls ≡ 2)
unfolding start_request start_probe sub ◌-ℤ◌ record_failure count_failure open_circuit add64 ◌+ℤ◌
    cancel_probe
two_probes =
    let t0 : Time = seconds 0 in
    let both : Reach (idle_system slow t0)
        (record (idle_system slow t0) { calls = old_call ∷ old_call ∷ [] }) =
      next (next here (start refl) (omega int_laws)) (start refl) (omega int_laws) in
    let opened = next both (end_call [] old_call (old_call ∷ []) fails refl) (omega int_laws) in
    let later = next opened (tick (seconds 5) (omega int_laws)) (omega int_laws) in
    let probe = next later (start refl) (omega int_laws) in
    let cancelled =
      next probe
        (end_call (record { began = seconds 5; probe = true } ∷ []) old_call [] cancels refl)
        (omega int_laws) in
    (next cancelled (start refl) (omega int_laws), refl)
