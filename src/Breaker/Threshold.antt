-- ===== src/Breaker/Threshold.antt =====
-- When the circuit opens and when it closes again, as long as calls of `Allow` do not overlap: the
-- breaker against two states that a reader of the calls' outcomes keeps.
use rate_limiter_as_a_servic.Clock.{Time, sub, sub_lt_iff}
use rate_limiter_as_a_servic.Limiter.{Key, Result, Decision, Error}
use rate_limiter_as_a_servic.Breaker.Calls.{
  Outcome, recorded, succeeds, fails, cancels, outcome_of, finish-recorded,
}
use rate_limiter_as_a_servic.Breaker.{
  CircuitBreakerLimiter, CircuitBreakerConfig, record_success, cancel_probe, record_failure,
  count_failure, open_circuit, circuit_closed, closed_breaker, circuit_open, circuit_half_open,
  start_request, start_request_in, start_probe, allow,
}
use rate_limiter_as_a_servic.Base.{
  ℤ, pos, Bool, List, ℕ, Option, ◌≡◌, ◌<ℤ◌, arith, suc, ◌≤ℤ◌, if◌then◌else◌, ltb_ℤ, leb_ℤ,
  max_int64, add64, ap, ◌∙◌, [], ◌∷◌, add64_exact, refl, eq_of_parts, int_laws, true, false, ◌+ℤ◌,
  Bool-cases, inl, inr,
}

-- A call of `Allow`: its arguments, the two readings of the clock, what the limiter inside would
-- answer, and `ctx.Err()` after that.
pub record Trial : Type 0 where
  pub key : Key
  pub cost : ℤ
  pub started : Time
  pub ended : Time
  pub answer : Result Decision
  pub ctx_err : Option Error

-- The breaker after a call, and after calls of which the newest is listed first.
abbrev pub after_trial : CircuitBreakerLimiter → Trial → CircuitBreakerLimiter
after_trial l t =
    (allow {S = Unit {0}} (λ s key cost. (t.answer, s)) l tt t.key t.cost t.started t.ended
      t.ctx_err).1

pub after_trials : CircuitBreakerLimiter → List Trial → CircuitBreakerLimiter
after_trials l [] = l
after_trials l (t ∷ older) = after_trial (after_trials l older) t

-- What a reader of the outcomes keeps: that many failures since the last success, or the instant since
-- which the dependency is given up.
pub data Verdict : Type 0 where
  healthy : (failures : ℕ) → Verdict
  given_up : (since : Time) → Verdict

module _ (config : CircuitBreakerConfig) where
  -- An answer that the request itself is to blame for, or a caller that has gone, says nothing.
  abbrev pub judged : Verdict → Outcome → Time → Verdict
  judged v succeeds ended = healthy 0
  judged v cancels ended = v
  judged (healthy n) fails ended =
      if leb_ℤ config.failure_threshold (pos (suc n)) then given_up ended else healthy (suc n)
  judged (given_up since) fails ended = given_up ended

  -- A dependency that is given up is asked again only when the open timeout has passed.
  abbrev pub is_refused : Verdict → Time → Bool
  is_refused (healthy n) started = false
  is_refused (given_up since) started = ltb_ℤ started (since +ℤ config.open_timeout)

  unfoldable pub verdict : List Trial → Verdict
  verdict [] = healthy 0
  verdict (t ∷ older) =
      let v = verdict older in
      if is_refused v t.started then v else judged v (outcome_of t.answer t.ctx_err) t.ended

  -- The breaker shows the verdict. No probe is left running.
  abbrev pub Shows : CircuitBreakerLimiter → Verdict → Type 0
  Shows l (healthy n) =
      (l.state ≡ circuit_closed) × (l.failures ≡ pos n) × (pos n <ℤ config.failure_threshold)
  Shows l (given_up since) = (l.state ≡ circuit_open) × (l.opened_at ≡ since)

  abbrev Agrees : CircuitBreakerLimiter → Verdict → Type 0
  Agrees l v = (l.config ≡ config) × (l.probe_running ≡ false) × Shows l v

after_trial_lem :
    (l : CircuitBreakerLimiter) (t : Trial) (admitted : Bool) (l' : CircuitBreakerLimiter)
    → start_request l t.started ≡ (admitted, l')
    → after_trial l t
      ≡ (if admitted then recorded (outcome_of t.answer t.ctx_err) l' t.ended else l')
unfolding allow
after_trial_lem l t true l' e = rw (e, after_trial) (finish-recorded l' t.answer t.ctx_err t.ended)
after_trial_lem l t false l' e = rw (e, after_trial) refl

start-closed :
    (l : CircuitBreakerLimiter) (now : Time)
    → l.state ≡ circuit_closed
    → start_request l now ≡ (true, l)
unfolding start_request start_request_in
start-closed l now e = ap (λ st. start_request_in st l now) e

start-open_early :
    (l : CircuitBreakerLimiter) (now : Time)
    → l.state ≡ circuit_open
    → ltb_ℤ (sub now l.opened_at) l.config.open_timeout ≡ true
    → start_request l now ≡ (false, l)
unfolding start_request start_request_in
start-open_early l now e early = ap (λ st. start_request_in st l now) e ∙ rw early refl

abbrev probing : CircuitBreakerLimiter → CircuitBreakerLimiter
probing l = record l { state = circuit_half_open; probe_running = true }

start-open_probe :
    (l : CircuitBreakerLimiter) (now : Time)
    → l.state ≡ circuit_open
    → l.probe_running ≡ false
    → ltb_ℤ (sub now l.opened_at) l.config.open_timeout ≡ false
    → start_request l now ≡ (true, probing l)
unfolding start_request start_request_in start_probe
start-open_probe l now e idle late = ap (λ st. start_request_in st l now) e ∙ rw (late, idle) refl

add64_one : (n : ℕ) → pos (suc n) ≤ℤ max_int64 → add64 (pos n) (pos 1) ≡ pos (suc n)
add64_one n small =
    add64_exact (pos n) (pos 1) (omega int_laws, omega int_laws) ∙ eq_of_parts _ _ (omega int_laws)

module _ (config : CircuitBreakerConfig) (positive : pos 0 <ℤ config.failure_threshold)
    (word : config.failure_threshold ≤ℤ max_int64) where
  -- The end of a call that a closed circuit has let through.
  closed-Agrees :
      (l : CircuitBreakerLimiter) (n : ℕ) (o : Outcome) (ended : Time)
      → Agrees config l (healthy n)
      → Agrees config (recorded o l ended) (judged config (healthy n) o ended)
  unfolding record_success record_failure count_failure open_circuit cancel_probe
  closed-Agrees l n succeeds ended a = ground arith
  closed-Agrees l n cancels ended a = ground arith
  closed-Agrees l n fails ended (same, idle, (state, count, below)) =
      let counted : add64 l.failures (pos 1) ≡ pos (suc n) =
        ap (λ f. add64 f (pos 1)) count ∙ add64_one n (omega arith) in
      elim (Bool-cases (leb_ℤ config.failure_threshold (pos (suc n)))) [
        | inl reached ↦ rw (state, counted, same, reached) (refl, refl, (refl, refl))
        | inr fewer ↦ rw (state, counted, same, fewer) (refl, refl, (refl, refl, ground arith))
      ]

  -- The end of a probe.
  probe-Agrees :
      (l : CircuitBreakerLimiter) (since : Time) (o : Outcome) (ended : Time)
      → Agrees config l (given_up since)
      → Agrees config (recorded o (probing l) ended) (judged config (given_up since) o ended)
  unfolding record_success record_failure open_circuit cancel_probe
  probe-Agrees l since succeeds ended a = ground arith
  probe-Agrees l since cancels ended a = ground arith
  probe-Agrees l since fails ended a = ground arith

  module _ (patient : pos 0 <ℤ config.open_timeout) (short : config.open_timeout ≤ℤ max_int64) where
    trial-Agrees :
        (l : CircuitBreakerLimiter) (v : Verdict) (t : Trial)
        → Agrees config l v
        → Agrees config (after_trial l t) (
            if is_refused config v t.started
            then v
            else judged config v (outcome_of t.answer t.ctx_err) t.ended)
    trial-Agrees l (healthy n) t a =
        let (same, idle, (state, count, below)) = a in
        rw (after_trial_lem l t true l (start-closed l t.started state))
          (closed-Agrees l n (outcome_of t.answer t.ctx_err) t.ended a)
    trial-Agrees l (given_up since) t a =
        let (same, idle, (state, opened)) = a in
        let waits : ltb_ℤ (sub t.started l.opened_at) l.config.open_timeout
            ≡ ltb_ℤ t.started (since +ℤ config.open_timeout) =
          ap (λ (c : CircuitBreakerConfig). ltb_ℤ (sub t.started l.opened_at) c.open_timeout) same
          ∙ sub_lt_iff t.started l.opened_at config.open_timeout (omega arith) short
          ∙ ap (λ u. ltb_ℤ t.started (u +ℤ config.open_timeout)) opened in
        elim (Bool-cases (ltb_ℤ t.started (since +ℤ config.open_timeout))) [
          | inl early ↦
              rw
                (
                  after_trial_lem l t false l (start-open_early l t.started state (waits ∙ early)),
                  early,
                )
                a
          | inr late ↦
              rw
                (
                  after_trial_lem l t true (probing l)
                      (start-open_probe l t.started state idle (waits ∙ late)),
                  late,
                )
                (probe-Agrees l since (outcome_of t.answer t.ctx_err) t.ended a)
        ]

    after_trials-Agrees :
        (ts : List Trial)
        → Agrees config (after_trials (closed_breaker config) ts) (verdict config ts)
    unfolding after_trials verdict
    after_trials-Agrees [] = (refl, refl, (refl, refl, positive))
    after_trials-Agrees (t ∷ older) =
        trial-Agrees (after_trials (closed_breaker config) older) (verdict config older) t
          (after_trials-Agrees older)

    -- After any calls of `Allow` that do not overlap, whatever the limiter inside answers and
    -- whenever they start and end, a new breaker shows what a reader of the outcomes concludes, if
    -- its threshold and its open timeout are positive 64-bit numbers. The circuit is closed, with
    -- the number of failures since the last success, as long as that is below the threshold. The
    -- failure that reaches the threshold gives the dependency up, and the circuit is open since
    -- that instant: calls that start before the open timeout has passed are refused and count for
    -- nothing, and a call that starts after it is let through; its success closes the circuit, its
    -- failure gives the dependency up anew, and else nothing changes.
    pub after_trials-Shows :
        (ts : List Trial)
        → Shows config (after_trials (closed_breaker config) ts) (verdict config ts)
    after_trials-Shows ts = (after_trials-Agrees ts).2
