-- ===== src/Api/Check/Counts.antt =====
-- What the metrics record of a request.
use rate_limiter_as_a_servic.Api.Check.{
  check_rate_limit_handler, check_rate_limit, Handled, validated, decoded, answer, answer_decision,
  answer_error,
}
use rate_limiter_as_a_servic.Clock.{Duration}
use rate_limiter_as_a_servic.Limiter.{
  Error, Key, Result, Decision, ok, err, errors_is, unavailable, event_backlog_full, no_policy,
  invalid_cost, cost_exceeds_limit,
}
use rate_limiter_as_a_servic.Api.Check.Answers.{key_of}
use rate_limiter_as_a_servic.Api.Http.{
  CheckRateLimitPayload, RequestBody, read_json, new_writer, write_json,
}
use rate_limiter_as_a_servic.Base.{
  ℤ, Option, ◌≡◌, ◌+◌, if◌then◌else◌, String, lookup-insert, suc, Bool-cases, inl, ap, arith, inr,
  eq_of_parts, int_laws, some, none, refl, ◌∙◌, ◌||◌,
}
use rate_limiter_as_a_servic.Api.Metrics.{
  series_eq, series_beq, Series, ApiMetrics, observe, count, resource_label, Outcome,
  series_beq_iff, has_resource, allowed, quota_rejected, invalid_request, unknown_policy,
  backlog_full, dependency_unavailable, internal_error,
}

count-observe :
    (m : ApiMetrics) (resource : String) (o : Outcome) (elapsed : Duration) (t : Series)
    → let seen : Series = record { outcome = o; resource = resource_label m resource } in
      count (observe m resource o elapsed) t ≡ count m t + (if series_beq t seen then 1 else 0)
unfolding observe
count-observe m resource o elapsed t =
    let seen : Series = record { outcome = o; resource = resource_label m resource } in
    let inserted = lookup-insert seen t (suc (count m seen)) m.decisions in
    elim (Bool-cases (series_beq t seen)) [
      | inl same ↦
          let here : count m t ≡ count m seen = ap (count m) ((series_beq_iff t seen).0 same) in
          rw (inserted, same, here) (omega arith)
      | inr other ↦ rw (inserted, other) (omega arith)
    ]

-- The outcome that an error of the limiter is counted as: the first that it matches.
abbrev pub blamed_on : Error → Outcome
blamed_on e =
    if errors_is e unavailable
    then dependency_unavailable
    else if errors_is e event_backlog_full
    then backlog_full
    else if errors_is e no_policy
    then unknown_policy
    else if errors_is e invalid_cost || errors_is e cost_exceeds_limit
    then invalid_request
    else internal_error

-- The outcome of the limiter's answer. A decision that cannot be written is an internal error.
abbrev pub outcome_of : Option Error → Result Decision → Outcome
outcome_of none (ok d) = if d.allowed then allowed else quota_rejected
outcome_of (some e) (ok d) = internal_error
outcome_of broken (err e) = blamed_on e

-- The series of a request: that of a resource with a policy, and else of `unknown`.
abbrev pub series_of : ApiMetrics → Outcome → String → Series
series_of m outcome resource = record {
  outcome = outcome;
  resource = if has_resource resource m.known_resources then resource else "unknown";
}

module _ {S : Type 0} (validate_struct : CheckRateLimitPayload → Option Error)
    (rate_limiter : S → Key → ℤ → Result Decision × S) (open_timeout : Duration) where
  -- What a request is due to be counted as, from its body on. A body that cannot be read names no
  -- resource.
  abbrev pub due_valid :
      ApiMetrics → S → Option Error → CheckRateLimitPayload → Option Error → Series
  due_valid m s broken payload (some e) = series_of m invalid_request payload.resource
  due_valid m s broken payload none =
      series_of m (outcome_of broken (rate_limiter s (key_of payload) payload.cost).0)
        payload.resource

  abbrev pub due_read : ApiMetrics → S → Option Error → Result CheckRateLimitPayload → Series
  due_read m s broken (err e) = series_of m invalid_request "unknown"
  due_read m s broken (ok payload) = due_valid m s broken payload (validate_struct payload)

  abbrev pub due : ApiMetrics → S → Option Error → RequestBody → Series
  due m s broken body = due_read m s broken (read_json body)

  abbrev counted_as : ApiMetrics → Handled → Series
  counted_as m h = record { outcome = h.outcome; resource = resource_label m h.resource }

  counted_answer :
      (m : ApiMetrics) (broken : Option Error) (resource : String) (r : Result Decision)
      → counted_as m (answer open_timeout resource (new_writer broken) r)
        ≡ series_of m (outcome_of broken r) resource
  unfolding answer_decision answer_error resource_label write_json
  counted_answer m none resource (ok d) = elim (Bool-cases d.allowed) [
    | inl granted ↦ rw granted refl
    | inr denied ↦ rw denied refl
  ]
  counted_answer m (some e) resource (ok d) = elim (Bool-cases d.allowed) [
    | inl granted ↦ rw granted refl
    | inr denied ↦ rw denied refl
  ]
  counted_answer m none resource (err e) = ground arith
  counted_answer m (some b) resource (err e) = ground arith

  counted_valid :
      (m : ApiMetrics) (s : S) (broken : Option Error) (payload : CheckRateLimitPayload)
      (invalid : Option Error)
      → counted_as m
          (validated validate_struct rate_limiter open_timeout s
            (new_writer broken)
            payload
            invalid).0
        ≡ due_valid m s broken payload invalid
  unfolding resource_label
  counted_valid m s broken payload (some e) = refl
  counted_valid m s broken payload none =
      counted_answer m broken payload.resource (rate_limiter s (key_of payload) payload.cost).0

  counted_read :
      (m : ApiMetrics) (s : S) (broken : Option Error) (read : Result CheckRateLimitPayload)
      → counted_as m
          (decoded validate_struct rate_limiter open_timeout s (new_writer broken) read).0
        ≡ due_read m s broken read
  unfolding resource_label
  counted_read m s broken (err e) = refl
  counted_read m s broken (ok payload) = counted_valid m s broken payload (validate_struct payload)

  -- Every request is counted once, as what its body and the limiter's answer make it: exactly one
  -- counter is raised, by one. It is `invalid_request` for a body that is not accepted, the limiter's
  -- decision, or what its error is about; a decision that cannot be written, because the connection is
  -- gone, is an internal error. The resource is that of the body, if it has a policy, and else
  -- `unknown`, also for a body that cannot be read. Every other counter is as before, and so is the
  -- number of requests in flight.
  pub count-check_rate_limit_handler :
      (m : ApiMetrics) (s : S) (broken : Option Error) (body : RequestBody) (elapsed : Duration)
      (t : Series)
      → let m' =
          (check_rate_limit_handler validate_struct rate_limiter open_timeout m s
            (new_writer broken)
            body
            elapsed).0 in
        (count m' t ≡ count m t + (if series_beq t (due m s broken body) then 1 else 0))
        × (m'.in_flight ≡ m.in_flight)
  unfolding check_rate_limit_handler check_rate_limit observe resource_label
  count-check_rate_limit_handler m s broken body elapsed t =
      let h =
        (check_rate_limit validate_struct rate_limiter open_timeout s (new_writer broken) body).0 in
      (
        count-observe m h.resource h.outcome elapsed t
            ∙ ap (λ seen. count m t + (if series_beq t seen then 1 else 0))
                (counted_read m s broken (read_json body)),
        eq_of_parts _ _ (omega int_laws),
      )
