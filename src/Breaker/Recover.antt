-- ===== src/Breaker/Recover.antt =====
-- What a caller of the breaker gets.
use rate_limiter_as_a_servic.Clock.{Time, sub}
use rate_limiter_as_a_servic.Limiter.{
  Key, Result, Decision, errors_is, Error, ok, err, unavailable, Result-cases, sentinel,
  err-injective,
}
use rate_limiter_as_a_servic.Breaker.{
  start_request, start_probe, Result, ready, Decision, CircuitBreakerLimiter, allow, Time, finish,
  errors_is, Error, ok, err, is_request_error, unavailable, record_failure, is_closed,
  start_request_in, CircuitState, is_open, sub, circuit_half_open, sentinel, circuit_closed,
  unavailable_because, circuit_open, cancel_probe, is_done,
}
use rate_limiter_as_a_servic.Base.{
  ℤ, Option, ◌≡◌, ◌&&◌, true, ◌⊎◌, Bool-cases, inr, ◌||◌, not, arith, inl, leb_ℤ, false, refl, ap,
  ◌∙◌, subst, sym,
}

start_probe-idle : (l : CircuitBreakerLimiter) → (start_probe l).0 ≡ not l.probe_running
unfolding start_probe
start_probe-idle l = ground arith

admitted_in :
    (st : CircuitState) (l : CircuitBreakerLimiter) (now : Time)
    → (start_request_in st l now).0 ≡ (
        (not (is_open st) || leb_ℤ l.config.open_timeout (sub now l.opened_at))
        && (is_closed st || not l.probe_running))
unfolding start_request_in
admitted_in circuit_closed l now = refl
admitted_in circuit_open l now =
    let probe = start_probe-idle (record l { state = circuit_half_open }) in ground arith
admitted_in circuit_half_open l now = start_probe-idle l

-- A request is let through exactly if the breaker is ready and, unless the circuit is closed, no
-- probe is running. (So a half-open circuit whose probe is running is ready and lets nobody in.)
pub start_request-ready :
    (l : CircuitBreakerLimiter) (now : Time)
    → (start_request l now).0 ≡ (ready l now && (is_closed l.state || not l.probe_running))
unfolding start_request ready
start_request-ready l now = admitted_in l.state l now

module _ {S : Type 0} (inner : S → Key → ℤ → Result Decision × S) where
  -- There is no fallback capacity: a decision that the breaker returns is the one that the limiter
  -- inside has taken, in the state that it has left.
  pub allow-ok :
      (l : CircuitBreakerLimiter) (s : S) (key : Key) (cost : ℤ) (started ended : Time)
      (ctx_err : Option Error) (d : Decision)
      → (allow inner l s key cost started ended ctx_err).0 ≡ ok d
      → inner s key cost ≡ (ok d, (allow inner l s key cost started ended ctx_err).2)
  unfolding allow finish
  allow-ok l s key cost started ended ctx_err d answer =
      elim (Bool-cases (start_request l started).0) [
        | inr rejected ↦ ground arith
        | inl admitted ↦ elim (Result-cases (inner s key cost).0) [
          | inl (d', e) ↦ ground arith
          | inr (cause, e) ↦ ground arith
        ]
      ]

  pub allow-rejected :
      (l : CircuitBreakerLimiter) (s : S) (key : Key) (cost : ℤ) (started ended : Time)
      (ctx_err : Option Error)
      → (start_request l started).0 ≡ false
      → allow inner l s key cost started ended ctx_err
        ≡ (err (sentinel unavailable), (start_request l started).1, s)
  unfolding allow
  allow-rejected l s key cost started ended ctx_err refused = ground arith

  module _ (l : CircuitBreakerLimiter) (s : S) (key : Key) (cost : ℤ) (started ended : Time)
      (ctx_err : Option Error) (cause : Error) (admitted : (start_request l started).0 ≡ true)
      (got : (inner s key cost).0 ≡ err cause) where
    allow-passed_on :
        (is_request_error cause || is_done ctx_err) ≡ true
        → ((allow inner l s key cost started ended ctx_err).0 ≡ err cause)
          × ((allow inner l s key cost started ended ctx_err).1
              ≡ cancel_probe (start_request l started).1)
    unfolding allow finish
    allow-passed_on blamed = (ground arith, ground arith)

    allow-dependency :
        (is_request_error cause || is_done ctx_err) ≡ false
        → ((allow inner l s key cost started ended ctx_err).0 ≡ err (unavailable_because cause))
          × ((allow inner l s key cost started ended ctx_err).1
              ≡ record_failure (start_request l started).1 ended)
    unfolding allow finish
    allow-dependency dependency = (ground arith, ground arith)

  -- The limiter inside was not called.
  abbrev pub IsTurnedAway : CircuitBreakerLimiter → S → Time → CircuitBreakerLimiter × S → Type 0
  IsTurnedAway l s started after =
      ((start_request l started).0 ≡ false)
      × (after.0 ≡ (start_request l started).1)
      × (after.1 ≡ s)

  -- An error comes about in one of three ways. The call was not let through: the error is
  -- `ErrUnavailable` and the limiter inside is as before. Or the error of the limiter inside is
  -- passed on as it is, because it is about the request itself or the context of the caller is done:
  -- a probe is given back. Or the limiter inside has failed though neither holds: the caller can tell
  -- the error by `ErrUnavailable`, and the failure is recorded.
  pub allow-err :
      (l : CircuitBreakerLimiter) (s : S) (key : Key) (cost : ℤ) (started ended : Time)
      (ctx_err : Option Error) (e : Error)
      → (allow inner l s key cost started ended ctx_err).0 ≡ err e
      → let after = (allow inner l s key cost started ended ctx_err).1 in
        let after_inner = (allow inner l s key cost started ended ctx_err).2 in
        ((e ≡ sentinel unavailable) × IsTurnedAway l s started (after, after_inner))
        ⊎ ((((inner s key cost).0 ≡ err e)
              × ((is_request_error e || is_done ctx_err) ≡ true)
              × (after ≡ cancel_probe (start_request l started).1))
            ⊎ ((cause : Error) × ((inner s key cost).0 ≡ err cause)
                × ((is_request_error cause || is_done ctx_err) ≡ false)
                × (errors_is e unavailable ≡ true)
                × (after ≡ record_failure (start_request l started).1 ended)))
  unfolding allow finish errors_is
  allow-err l s key cost started ended ctx_err e answer =
      elim (Bool-cases (start_request l started).0) [
        | inr refused ↦
            let result = allow-rejected l s key cost started ended ctx_err refused in
            let same : sentinel unavailable ≡ e = err-injective (ap (λ r. r.0) result) answer in
            inl (sym same, (refused, ap (λ r. r.1) result, ap (λ r. r.2) result))
        | inl admitted ↦ elim (Result-cases (inner s key cost).0) [
          | inl (d, got) ↦ absurd (ground arith)
          | inr (cause, got) ↦ elim (Bool-cases (is_request_error cause || is_done ctx_err)) [
            | inl blamed ↦
                let result =
                  allow-passed_on l s key cost started ended ctx_err cause admitted got blamed in
                let same : cause ≡ e = err-injective result.0 answer in
                inr (inl (got ∙ ap err same, rw same at blamed, result.1))
            | inr dependency ↦
                let result =
                  allow-dependency l s key cost started ended ctx_err cause admitted got
                    dependency in
                let same : unavailable_because cause ≡ e = err-injective result.0 answer in
                inr (
                  inr (
                    cause,
                    got,
                    dependency,
                    subst (λ x. errors_is x unavailable ≡ true) same refl,
                    result.1,
                  ))
          ]
        ]
      ]
