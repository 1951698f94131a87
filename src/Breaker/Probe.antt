-- ===== src/Breaker/Probe.antt =====
-- At most one probe is in flight, when a call cannot outlast the open timeout.
use rate_limiter_as_a_servic.Clock.{Time}
use rate_limiter_as_a_servic.Breaker.Calls.{
  System, IsTimely, Reach, Call, probes, Outcome, Step, next, tick, here, new_call, recorded, start,
  reject, end_call,
}
use rate_limiter_as_a_servic.Breaker.Invariant.{
  IsTimeout, BeganBy, Inv, StateInv, start_closed, BeganBy-mono, start_open, BeganBy-remove,
  probes-NoProbes, left_over, start_half_open, recorded-StateInv, none_left,
}
use rate_limiter_as_a_servic.Breaker.{
  CircuitBreakerConfig, Time, CircuitState, closed_breaker, start_request, circuit_half_open,
  is_half_open, circuit_closed, circuit_open,
}
use rate_limiter_as_a_servic.Base.{
  ◌<ℤ◌, ◌≡◌, List, [], ◌≤◌, true, false, ◌++◌, ◌∷◌, arith, refl, subst, inl, inr, sym, ◌∙◌, ap,
}

module _ (config : CircuitBreakerConfig) (timeout : IsTimeout config.open_timeout)
    (shorter : config.decision_timeout <ℤ config.open_timeout) where
  start-Inv :
      (s : System) (st : CircuitState)
      → s.breaker.state ≡ st
      → s.breaker.config ≡ config
      → BeganBy s.clock s.calls
      → IsTimely s
      → StateInv st s.breaker s.calls
      → (start_request s.breaker s.clock).0 ≡ true
      → Inv config (record s {
        breaker = (start_request s.breaker s.clock).1;
        calls = new_call s.breaker s.clock ∷ s.calls;
      })
  start-Inv s circuit_closed e c b t i admitted =
      let same = start_closed s.breaker s.clock e in
      rw same (record {
        same_config = c;
        began = (omega arith, b);
        by_state =
            subst
              (λ st.
                StateInv st s.breaker
                  (record { began = s.clock; probe = is_half_open s.breaker.state } ∷ s.calls))
              (sym e) (rw e, i);
      })
  start-Inv s circuit_open e c b t (none_probe, old, idle) admitted =
      elim (start_open s.breaker s.clock e idle (rw c timeout)) [
        | inl (granted, passed, outcome) ↦
            let gone : s.calls ≡ [] =
              none_left s.breaker.config s.breaker.opened_at s.clock s.calls (rw c shorter) passed
                old t in
            rw outcome (record {
              same_config = c;
              began = (omega arith, b);
              by_state = (
                record { began = s.clock; probe = true },
                ap (λ cs. record { began = s.clock; probe = true } ∷ cs) gone,
                refl,
              );
            })
        | inr (refused, same) ↦ cc
      ]
  start-Inv s circuit_half_open e c b t (call, only, busy) admitted =
      let refused = (start_half_open s.breaker s.clock e busy).0 in cc

  reject-Inv :
      (s : System) (st : CircuitState)
      → s.breaker.state ≡ st
      → Inv config s
      → StateInv st s.breaker s.calls
      → (start_request s.breaker s.clock).0 ≡ false
      → Inv config (record s { breaker = (start_request s.breaker s.clock).1 })
  reject-Inv s circuit_closed e i state refused = rw (start_closed s.breaker s.clock e) i
  reject-Inv s circuit_open e i state refused =
      elim (start_open s.breaker s.clock e state.2 (rw i.same_config timeout)) [
        | inl (granted, passed, outcome) ↦ cc
        | inr (still, same) ↦ rw same i
      ]
  reject-Inv s circuit_half_open e i (call, only, busy) refused =
      rw ((start_half_open s.breaker s.clock e busy).1) i

  end_call-Inv :
      (s : System) (st : CircuitState) (earlier : List Call) (c : Call) (later : List Call)
      (o : Outcome)
      → s.breaker.state ≡ st
      → s.calls ≡ earlier ++ c ∷ later
      → Inv config s
      → StateInv st s.breaker s.calls
      → Inv config (record s { breaker = recorded o s.breaker s.clock; calls = earlier ++ later })
  end_call-Inv s st earlier c later o e split i state =
      let left : List Call = earlier ++ later in
      let began : BeganBy s.clock left =
        BeganBy-remove s.clock earlier c later (subst (BeganBy s.clock) split i.began) in
      let known = left_over s st earlier c later split state in
      let after = recorded-StateInv s.breaker st o s.clock left e known.0 began known.1 in
      record { same_config = after.0 ∙ i.same_config; began = began; by_state = after.1 }

  step-Inv : {s u : System} → IsTimely s → Inv config s → Step s u → Inv config u
  step-Inv {s} t i (tick now h) = record {
    same_config = i.same_config;
    began = BeganBy-mono s.clock now s.calls h i.began;
    by_state = i.by_state;
  }
  step-Inv {s} t i (start admitted) =
      start-Inv s s.breaker.state refl i.same_config i.began t i.by_state admitted
  step-Inv {s} t i (reject refused) = reject-Inv s s.breaker.state refl i i.by_state refused
  step-Inv {s} t i (end_call earlier c later o split) =
      end_call-Inv s s.breaker.state earlier c later o refl split i i.by_state

  -- Every state that is reached is timely, as long as the first one is.
  Reach-Inv : {s u : System} → IsTimely s × Inv config s → Reach s u → IsTimely u × Inv config u
  Reach-Inv first here = first
  Reach-Inv first (next r st t) = let i = Reach-Inv first r in (t, step-Inv i.0 i.1 st)

one_probe :
    (config : CircuitBreakerConfig) (s : System) (st : CircuitState)
    → s.breaker.state ≡ st
    → StateInv st s.breaker s.calls
    → (probes s.calls ≤ 1)
      × (s.breaker.state ≡ circuit_half_open
          → ((c : Call) × (s.calls ≡ c ∷ [])) × ((start_request s.breaker s.clock).0 ≡ false))
one_probe config s circuit_closed e i = (omega (arith, probes-NoProbes s.calls i), λ half. cc)
one_probe config s circuit_open e i = (omega (arith, probes-NoProbes s.calls i.0), λ half. cc)
one_probe config s circuit_half_open e (c, only, busy) =
    (rw only (ground arith), λ half. ((c, only), (start_half_open s.breaker s.clock e busy).0))

-- A new breaker with no call.
abbrev pub idle_system : CircuitBreakerConfig → Time → System
idle_system config now = record { breaker = closed_breaker config; clock = now; calls = [] }

-- If the decision timeout is shorter than the open timeout and the limiter inside keeps to it, then
-- however calls overlap at most one probe is in flight; while the circuit is half-open that probe is
-- the only call in flight, and no other request is let through.
pub probes-le-one :
    (config : CircuitBreakerConfig) (now : Time) (u : System)
    → IsTimeout config.open_timeout
    → config.decision_timeout <ℤ config.open_timeout
    → Reach (idle_system config now) u
    → (probes u.calls ≤ 1)
      × (u.breaker.state ≡ circuit_half_open
          → ((c : Call) × (u.calls ≡ c ∷ [])) × ((start_request u.breaker u.clock).0 ≡ false))
probes-le-one config now u timeout shorter r =
    one_probe config u u.breaker.state refl
      (Reach-Inv config timeout shorter
        (tt, record { same_config = refl; began = tt; by_state = tt }) r).1.by_state
