-- ===== src/Api/Check.antt =====
-- cmd/api/check.go: the handler of `POST /v1/check`. The limiter behind the API is a parameter, and
-- so is `validate.Struct`, which is a library's.
pub mod Shape
pub mod Answers
pub mod Counts
use rate_limiter_as_a_servic.Api.Http.{
  CheckRateLimitPayload, ResponseWriter, CheckRateLimitResponse, write_json, bad_request_error,
  internal_server_error, decision_body, RequestBody, service_unavailable_error, set_retry_after,
  read_json, not_found_error,
}
use rate_limiter_as_a_servic.Limiter.{
  Decision, Error, Result, errors_is, ok, Key, unavailable, err, event_backlog_full, no_policy,
  invalid_cost, cost_exceeds_limit,
}
use rate_limiter_as_a_servic.Clock.{Duration}
use rate_limiter_as_a_servic.Base.{
  ℤ, pos, String, Option, if◌then◌else◌, some, ◌-ℤ◌, ◌+ℤ◌, none, ◌||◌,
}
use rate_limiter_as_a_servic.Api.Metrics.{
  Outcome, allowed, quota_rejected, invalid_request, unknown_policy, backlog_full,
  dependency_unavailable, internal_error, ApiMetrics, observe, unknown_metric_resource,
}

-- What the handler's deferred function records, and the answer.
pub record Handled : Type 0 where
  pub resource : String
  pub outcome : Outcome
  pub writer : ResponseWriter

-- The switch on the error of `Allow`.
unfoldable pub answer_error : Duration → String → ResponseWriter → Error → Handled
answer_error open_timeout resource w e =
    if errors_is e unavailable
    then record {
      resource = resource;
      outcome = dependency_unavailable;
      writer = service_unavailable_error open_timeout w e;
    }
    else if errors_is e event_backlog_full
    then record {
      resource = resource;
      outcome = backlog_full;
      writer = service_unavailable_error open_timeout w e;
    }
    else if errors_is e no_policy
    then record { resource = resource; outcome = unknown_policy; writer = not_found_error w e }
    else if errors_is e invalid_cost || errors_is e cost_exceeds_limit
    then record { resource = resource; outcome = invalid_request; writer = bad_request_error w e }
    else record {
      resource = resource;
      outcome = internal_error;
      writer = internal_server_error w e;
    }

abbrev pub response_of : Decision → CheckRateLimitResponse
response_of d = record {
  allowed = d.allowed;
  limit = d.limit;
  remaining = d.remaining;
  reset_at = d.reset_at;
  retry_after_ms = d.retry_after_ms;
}

-- The end of the handler, once the answer is written.
abbrev pub written : String → Outcome → Option Error × ResponseWriter → Handled
written resource outcome (none, w) = record { resource = resource; outcome = outcome; writer = w }
written resource outcome (some e, w) = record {
  resource = resource;
  outcome = internal_error;
  writer = internal_server_error w e;
}

-- The handler from the decision on.
unfoldable pub answer_decision : String → ResponseWriter → Decision → Handled
answer_decision resource w d =
    if d.allowed
    then written resource allowed (write_json w 200 (decision_body (response_of d)))
    else written resource quota_rejected
        (write_json (set_retry_after w d.retry_after_ms) 429 (decision_body (response_of d)))

abbrev pub answer : Duration → String → ResponseWriter → Result Decision → Handled
answer open_timeout resource w (ok d) = answer_decision resource w d
answer open_timeout resource w (err e) = answer_error open_timeout resource w e

abbrev pub refuse : String → ResponseWriter → Error → Handled
refuse resource w e = record {
  resource = resource;
  outcome = invalid_request;
  writer = bad_request_error w e;
}

module _ {S : Type 0} (validate_struct : CheckRateLimitPayload → Option Error)
    (rate_limiter : S → Key → ℤ → Result Decision × S) (open_timeout : Duration) where
  -- The handler, without what it defers, from the validation's result on.
  abbrev pub validated : S → ResponseWriter → CheckRateLimitPayload → Option Error → Handled × S
  validated s w payload (some e) = (refuse payload.resource w e, s)
  validated s w payload none =
      let key : Key = record { client_id = payload.client_id; resource = payload.resource } in
      let (result, s') = rate_limiter s key payload.cost in
      (answer open_timeout payload.resource w result, s')

  abbrev pub decoded : S → ResponseWriter → Result CheckRateLimitPayload → Handled × S
  decoded s w (err e) = (refuse unknown_metric_resource w e, s)
  decoded s w (ok payload) = validated s w payload (validate_struct payload)

  unfoldable pub check_rate_limit : S → ResponseWriter → RequestBody → Handled × S
  check_rate_limit s w body = decoded s w (read_json body)

  abbrev pub finished : ApiMetrics → Duration → Handled → ApiMetrics
  finished m elapsed h =
      observe (record m { in_flight = m.in_flight -ℤ pos 1 }) h.resource h.outcome elapsed

  -- `elapsed` is the time that the request has taken. The gauge is a number that other requests
  -- change too: it is raised first and lowered at the end.
  unfoldable pub check_rate_limit_handler :
      ApiMetrics → S → ResponseWriter → RequestBody → Duration → ApiMetrics × Handled × S
  check_rate_limit_handler m s w body elapsed =
      let m' = record m { in_flight = m.in_flight +ℤ pos 1 } in
      let (h, s') = check_rate_limit s w body in (finished m' elapsed h, h, s')
