-- ===== src/Api/Health/Readiness.antt =====
-- What the readiness of the API tells of the checks.
use rate_limiter_as_a_servic.Breaker.Recover.{start_request-ready, allow-rejected}
use rate_limiter_as_a_servic.Clock.{Time}
use rate_limiter_as_a_servic.Limiter.{Error, Key, sentinel, unavailable, Result, Decision, err}
use rate_limiter_as_a_servic.Base.{
  ℕ, String, Option, none, some, ◌≡◌, ◌⊎◌, inl, inr, true, false, refl, Bool-cases, Option-cases, ℤ,
  ◌||◌, not, ◌∙◌, ap, ◌&&◌,
}
use rate_limiter_as_a_servic.Breaker.{CircuitBreakerLimiter, ready, allow, start_request, is_closed}
use rate_limiter_as_a_servic.Api.Http.{
  ResponseWriter, write_json, new_writer, internal_server_error, write_error_json,
}
use rate_limiter_as_a_servic.Api.Health.{
  readiness_check_handler, redis_readiness_check, internal_server_error, sentinel, readiness_answer,
  unavailable, not,
}

-- The status that a handler has sent.
abbrev pub status_of : ResponseWriter → ℕ
status_of w = elim w.sent [ none ↦ 0 | some (status, header) ↦ status ]

abbrev pub readiness :
    String → CircuitBreakerLimiter → Time → Option Error → Option Error → ResponseWriter
readiness env l now ping broken =
    readiness_check_handler env (some (redis_readiness_check l now ping)) (new_writer broken)

status-readiness :
    (env : String) (check : Option (Option Error)) (broken : Option Error)
    → status_of (readiness_check_handler env check (new_writer broken))
      ≡ (readiness_answer env check).0
unfolding readiness_check_handler write_json internal_server_error write_error_json
status-readiness env check none = refl
status-readiness env check (some e) = refl

readiness-cases :
    (l : CircuitBreakerLimiter) (now : Time) (ping : Option Error)
    → ((redis_readiness_check l now ping ≡ none) × (ready l now ≡ true) × (ping ≡ none))
      ⊎ ((e : Error) × (redis_readiness_check l now ping ≡ some e)
          × ((ready l now ≡ false) ⊎ (ping ≡ some e)))
unfolding redis_readiness_check
readiness-cases l now ping = elim (Bool-cases (ready l now)) [
  | inr down ↦ inr (sentinel unavailable, rw down refl, inl down)
  | inl up ↦ elim (Option-cases ping) [
    | inl answered ↦ inl (rw up answered, up, answered)
    | inr (e, failed) ↦ inr (e, rw up failed, inr failed)
  ]
]

module _ {S : Type 0} (inner : S → Key → ℤ → Result Decision × S) where
  -- What a check that starts at that instant would be told.
  abbrev pub Refuses : CircuitBreakerLimiter → Time → Type 0
  Refuses l now =
      (s : S) (key : Key) (cost : ℤ) (ended : Time)
      → allow inner l s key cost now ended none
        ≡ (err (sentinel unavailable), (start_request l now).1, s)

  refused_unready : (l : CircuitBreakerLimiter) (now : Time) → ready l now ≡ false → Refuses l now
  refused_unready l now down s key cost ended =
      allow-rejected inner l s key cost now ended none
        (start_request-ready l now ∙ ap (λ b. b && (is_closed l.state || not l.probe_running)) down)

  -- The readiness endpoint answers 200 only if Redis has answered the ping and the breaker lets
  -- requests through, but for a probe that is running. Else it answers 503, because Redis has failed
  -- the ping or because a check that starts at that instant is refused without a call of the limiter.
  pub readiness-answers :
      (env : String) (l : CircuitBreakerLimiter) (now : Time) (ping broken : Option Error)
      → ((status_of (readiness env l now ping broken) ≡ 200)
          × (ping ≡ none)
          × ((start_request l now).0 ≡ (is_closed l.state || not l.probe_running)))
        ⊎ ((status_of (readiness env l now ping broken) ≡ 503)
            × (((e : Error) × (ping ≡ some e)) ⊎ Refuses l now))
  readiness-answers env l now ping broken =
      let sent = status-readiness env (some (redis_readiness_check l now ping)) broken in
      elim (readiness-cases l now ping) [
        | inl (passed, up, answered) ↦ inl (
          sent ∙ ap (λ c. (readiness_answer env (some c)).0) passed,
          answered,
          start_request-ready l now ∙ ap (λ b. b && (is_closed l.state || not l.probe_running)) up,
        )
        | inr (e, failed, inl down) ↦ inr (
          sent ∙ ap (λ c. (readiness_answer env (some c)).0) failed,
          inr (refused_unready l now down),
        )
        | inr (e, failed, inr refused) ↦
            inr (sent ∙ ap (λ c. (readiness_answer env (some c)).0) failed, inl (e, refused))
      ]
