-- ===== src/Breaker/Calls.antt =====
-- Calls of `Allow` that overlap: the breaker, the clock, and the calls that `startRequest` has let
-- through and whose outcome is not recorded yet. The steps are the methods that hold the mutex.
use rate_limiter_as_a_servic.Limiter.{Result, Decision, Error}
use rate_limiter_as_a_servic.Breaker.{
  CircuitBreakerLimiter, finish, record_success, Decision, is_half_open, record_failure,
  start_request, cancel_probe, Error, ok, err, is_request_error, is_done,
}
use rate_limiter_as_a_servic.Clock.{Time, Duration}
use rate_limiter_as_a_servic.Base.{
  List, Bool, ◌≤ℤ◌, ◌∷◌, ℕ, Option, ◌+ℤ◌, if◌then◌else◌, ◌≡◌, ◌+◌, [], true, false, arith, ◌++◌,
  ◌||◌, refl,
}

-- A call in flight. `probe` tells that it was let through to test an open circuit.
pub record Call : Type 0 where
  pub began : Time
  pub probe : Bool

pub record System : Type 0 where
  pub breaker : CircuitBreakerLimiter
  pub clock : Time
  pub calls : List Call

-- What a call's limiter has answered: `finish` tells them apart.
pub data Outcome : Type 0 where
  succeeds fails cancels : Outcome

abbrev pub recorded : Outcome → CircuitBreakerLimiter → Time → CircuitBreakerLimiter
recorded succeeds l now = record_success l
recorded fails l now = record_failure l now
recorded cancels l now = cancel_probe l

-- The outcome of an answer.
abbrev pub outcome_of : Result Decision → Option Error → Outcome
outcome_of (ok _) ctx_err = succeeds
outcome_of (err e) ctx_err = if is_request_error e || is_done ctx_err then cancels else fails

pub finish-recorded :
    (l : CircuitBreakerLimiter) (answer : Result Decision) (ctx_err : Option Error) (now : Time)
    → (finish l answer ctx_err now).1 ≡ recorded (outcome_of answer ctx_err) l now
unfolding finish
finish-recorded l (ok d) ctx_err now = refl
finish-recorded l (err e) ctx_err now = ground arith

abbrev pub new_call : CircuitBreakerLimiter → Time → Call
new_call l now = record { began = now; probe = is_half_open (start_request l now).1.state }

pub data Step (s : System) : System → Type 0 where
  tick : (now : Time) → s.clock ≤ℤ now → Step s (record s { clock = now })
  start :
      (start_request s.breaker s.clock).0 ≡ true
      → Step s (record s {
        breaker = (start_request s.breaker s.clock).1;
        calls = new_call s.breaker s.clock ∷ s.calls;
      })
  reject :
      (start_request s.breaker s.clock).0 ≡ false
      → Step s (record s { breaker = (start_request s.breaker s.clock).1 })
  end_call :
      (earlier : List Call) (c : Call) (later : List Call) (o : Outcome)
      → s.calls ≡ earlier ++ c ∷ later
      → Step s (record s { breaker = recorded o s.breaker s.clock; calls = earlier ++ later })

-- The limiter inside honours the deadline of its context: no call in flight is older than the
-- decision timeout.
abbrev pub InTime : Duration → Time → List Call → Type 0
InTime timeout now [] = Unit
InTime timeout now (c ∷ calls) = (now ≤ℤ c.began +ℤ timeout) × InTime timeout now calls

abbrev pub IsTimely : System → Type 0
IsTimely s = InTime s.breaker.config.decision_timeout s.clock s.calls

-- The states that are reached through states in which the limiter inside is in time.
pub data Reach (s : System) : System → Type 0 where
  here : Reach s s
  next : {t u : System} → Reach s t → Step t u → IsTimely u → Reach s u

abbrev pub probes : List Call → ℕ
probes [] = 0
probes (c ∷ calls) = (if c.probe then 1 else 0) + probes calls
