-- ===== src/Breaker/Invariant.antt =====
-- What each state of the breaker says of the calls in flight, and how the methods keep it.
use rate_limiter_as_a_servic.Breaker.Calls.{
  Call, System, probes, InTime, Outcome, recorded, succeeds, cancels, fails,
}
use rate_limiter_as_a_servic.Breaker.{
  CircuitState, CircuitBreakerConfig, CircuitBreakerLimiter, circuit_closed, circuit_open,
  circuit_half_open, Duration, start_request, start_probe, sub, is_half_open, record_failure,
  record_success, count_failure, cancel_probe, open_circuit,
}
use rate_limiter_as_a_servic.Clock.{Time, Duration, sub_lt_iff, sub}
use rate_limiter_as_a_servic.Base.{
  List, ◌∷◌, ◌≡◌, ◌≤ℤ◌, ◌++◌, ◌<ℤ◌, false, arith, [], ◌+ℤ◌, true, refl, int_laws, pos, max_int64,
  ◌⊎◌, ≤ℤ_or_<, inl, inr, ltb_ℤ, ◌∙◌, ltb_ℤ-false, ltb_ℤ-true, subst, sym, ap, ℤ, ◌≢◌, Bool-cases,
  leb_ℤ, add64,
}

abbrev pub NoProbes : List Call → Type 0
NoProbes [] = Unit
NoProbes (c ∷ calls) = (c.probe ≡ false) × NoProbes calls

abbrev pub BeganBy : Time → List Call → Type 0
BeganBy t [] = Unit
BeganBy t (c ∷ calls) = (c.began ≤ℤ t) × BeganBy t calls

-- What each state of the breaker says of the calls in flight.
abbrev pub StateInv : CircuitState → CircuitBreakerLimiter → List Call → Type 0
StateInv circuit_closed l calls = NoProbes calls
StateInv circuit_open l calls =
    NoProbes calls × BeganBy l.opened_at calls × (l.probe_running ≡ false)
StateInv circuit_half_open l calls = (c : Call) × (calls ≡ c ∷ []) × (l.probe_running ≡ true)

pub record Inv (config : CircuitBreakerConfig) (s : System) : Type 0 where
  pub same_config : s.breaker.config ≡ config
  pub began : BeganBy s.clock s.calls
  pub by_state : StateInv s.breaker.state s.breaker s.calls

pub BeganBy-mono : (t u : Time) (calls : List Call) → t ≤ℤ u → BeganBy t calls → BeganBy u calls
BeganBy-mono t u [] h b = tt
BeganBy-mono t u (c ∷ calls) h b = (omega arith, BeganBy-mono t u calls h b.1)

-- A predicate on all calls, once one of them is taken out.
pub BeganBy-remove :
    (t : Time) (earlier : List Call) (c : Call) (later : List Call)
    → BeganBy t (earlier ++ c ∷ later)
    → BeganBy t (earlier ++ later)
BeganBy-remove t [] c later b = b.1
BeganBy-remove t (x ∷ earlier) c later b = (b.0, BeganBy-remove t earlier c later b.1)

pub NoProbes-remove :
    (earlier : List Call) (c : Call) (later : List Call)
    → NoProbes (earlier ++ c ∷ later)
    → NoProbes (earlier ++ later)
NoProbes-remove [] c later b = b.1
NoProbes-remove (x ∷ earlier) c later b = (b.0, NoProbes-remove earlier c later b.1)

-- The only call in flight is the one that ends.
pub remove_only :
    (earlier : List Call) (c d : Call) (later : List Call)
    → d ∷ [] ≡ earlier ++ c ∷ later
    → earlier ++ later ≡ []
remove_only [] c d later e = cc
remove_only (x ∷ []) c d later e = cc
remove_only (x ∷ y ∷ earlier) c d later e = cc

-- No call from before the opening is left once the open timeout has passed.
pub none_left :
    (config : CircuitBreakerConfig) (opened now : Time) (calls : List Call)
    → config.decision_timeout <ℤ config.open_timeout
    → opened +ℤ config.open_timeout ≤ℤ now
    → BeganBy opened calls
    → InTime config.decision_timeout now calls
    → calls ≡ []
none_left config opened now [] lt passed b t = refl
none_left config opened now (c ∷ calls) lt passed b t = absurd (omega (int_laws, b.0, t.0))

pub probes-NoProbes : (calls : List Call) → NoProbes calls → probes calls ≡ 0
probes-NoProbes [] h = refl
probes-NoProbes (c ∷ calls) h = ground (arith, probes-NoProbes calls h.1)

-- A duration of a valid configuration.
abbrev pub IsTimeout : Duration → Type 0
IsTimeout d = (pos 0 <ℤ d) × (d ≤ℤ max_int64)

pub start_closed :
    (l : CircuitBreakerLimiter) (now : Time)
    → l.state ≡ circuit_closed
    → (start_request l now).1 ≡ l
unfolding start_request
start_closed l now e = ground arith

pub start_open :
    (l : CircuitBreakerLimiter) (now : Time)
    → l.state ≡ circuit_open
    → l.probe_running ≡ false
    → IsTimeout l.config.open_timeout
    → ((start_request l now).0 ≡ true)
        × (l.opened_at +ℤ l.config.open_timeout ≤ℤ now)
        × ((start_request l now).1 ≡ record l { state = circuit_half_open; probe_running = true })
      ⊎ ((start_request l now).0 ≡ false) × ((start_request l now).1 ≡ l)
unfolding start_request start_probe
start_open l now e idle timeout =
    let compared =
      sub_lt_iff now l.opened_at l.config.open_timeout (omega (arith, timeout.0)) timeout.1 in
    elim (≤ℤ_or_< (l.opened_at +ℤ l.config.open_timeout) now) [
      | inl passed ↦
          let test : ltb_ℤ (sub now l.opened_at) l.config.open_timeout ≡ false =
            compared ∙ ltb_ℤ-false now (l.opened_at +ℤ l.config.open_timeout) passed in
          inl (ground arith, passed, ground arith)
      | inr early ↦
          let test : ltb_ℤ (sub now l.opened_at) l.config.open_timeout ≡ true =
            compared ∙ ltb_ℤ-true now (l.opened_at +ℤ l.config.open_timeout) early in
          inr (ground arith, ground arith)
    ]

pub start_half_open :
    (l : CircuitBreakerLimiter) (now : Time)
    → l.state ≡ circuit_half_open
    → l.probe_running ≡ true
    → ((start_request l now).0 ≡ false) × ((start_request l now).1 ≡ l)
unfolding start_request start_probe
start_half_open l now e busy = (ground arith, ground arith)

-- A failure opens the circuit now, or leaves a circuit that is not half-open in its state.
abbrev pub opened_now : CircuitBreakerLimiter → Time → ℤ → CircuitBreakerLimiter
opened_now l now failures = record l {
  state = circuit_open;
  failures = failures;
  opened_at = now;
  probe_running = false;
}

abbrev pub counted : CircuitBreakerLimiter → ℤ → CircuitBreakerLimiter
counted l failures = record l { failures = failures; probe_running = false }

pub record_failure_cases :
    (l : CircuitBreakerLimiter) (now : Time)
    → ((n : ℤ) × (record_failure l now ≡ opened_now l now n))
      ⊎ ((is_half_open l.state ≡ false) × ((n : ℤ) × (record_failure l now ≡ counted l n)))
unfolding record_failure count_failure open_circuit
record_failure_cases l now = elim (Bool-cases (is_half_open l.state)) [
  | inl half ↦ inl (l.failures, rw half)
  | inr other ↦ elim (Bool-cases (leb_ℤ l.config.failure_threshold (add64 l.failures (pos 1)))) [
    | inl reached ↦ inl (add64 l.failures (pos 1), rw (other, reached))
    | inr below ↦ inr (other, (add64 l.failures (pos 1), rw (other, below)))
  ]
]

pub still-StateInv :
    (l : CircuitBreakerLimiter) (st : CircuitState) (left : List Call)
    → l.state ≡ st
    → is_half_open st ≡ false
    → l.probe_running ≡ false
    → NoProbes left
    → (st ≢ circuit_closed → BeganBy l.opened_at left)
    → StateInv l.state l left
still-StateInv l circuit_closed left e other idle free old =
    subst (λ x. StateInv x l left) (sym e) free
still-StateInv l circuit_open left e other idle free old =
    subst (λ x. StateInv x l left) (sym e) (free, old (λ x. cc), idle)
still-StateInv l circuit_half_open left e other idle free old = cc

-- After an outcome is recorded, for the calls that are left.
pub recorded-StateInv :
    (l : CircuitBreakerLimiter) (st : CircuitState) (o : Outcome) (now : Time) (left : List Call)
    → l.state ≡ st
    → NoProbes left
    → BeganBy now left
    → (st ≢ circuit_closed → BeganBy l.opened_at left)
    → ((recorded o l now).config ≡ l.config)
      × StateInv (recorded o l now).state (recorded o l now) left
unfolding record_success cancel_probe
recorded-StateInv l st succeeds now left e free young old = (refl, free)
recorded-StateInv l st cancels now left e free young old = elim (Bool-cases (is_half_open st)) [
  | inl half ↦ rw (ap is_half_open e, half) (refl, (free, old (λ x. ground arith), refl))
  | inr other ↦
      rw (ap is_half_open e, other)
        (refl, still-StateInv (record l { probe_running = false }) st left e other refl free old)
]
recorded-StateInv l st fails now left e free young old = elim (record_failure_cases l now) [
  | inl (n, outcome) ↦ rw outcome (refl, (free, young, refl))
  | inr (other, (n, outcome)) ↦
      rw outcome (
        refl,
        still-StateInv (counted l n) st left e (rw (ap is_half_open e) at other) refl free old,
      )
]

-- What is left of the calls when one ends.
pub left_over :
    (s : System) (st : CircuitState) (earlier : List Call) (c : Call) (later : List Call)
    → s.calls ≡ earlier ++ c ∷ later
    → StateInv st s.breaker s.calls
    → NoProbes (earlier ++ later)
      × (st ≢ circuit_closed → BeganBy s.breaker.opened_at (earlier ++ later))
left_over s circuit_closed earlier c later split state =
    (NoProbes-remove earlier c later (subst NoProbes split state), λ other. absurd (other refl))
left_over s circuit_open earlier c later split (free, old, idle) = (
  NoProbes-remove earlier c later (subst NoProbes split free),
  λ _.
      BeganBy-remove s.breaker.opened_at earlier c later
        (subst (BeganBy s.breaker.opened_at) split old),
)
left_over s circuit_half_open earlier c later split (d, only, busy) =
    rw (remove_only earlier c d later (sym only ∙ split)) (tt, λ _. tt)
