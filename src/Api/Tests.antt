-- ===== src/Api/Tests.antt =====
-- Tests of the API, and its theorems at concrete inputs.
use rate_limiter_as_a_servic.Base.{◌⊎◌, false}
use rate_limiter_as_a_servic.Breaker.{CircuitBreakerLimiter, circuit_open, start_request, ready}
use rate_limiter_as_a_servic.Api.Health.{readiness_check_handler, redis_readiness_check}
use rate_limiter_as_a_servic.Api.Health.Readiness.{status_of, readiness, Refuses, readiness-answers}
use rate_limiter_as_a_servic.Clock.{minute, truncate, sub, milliseconds}
use rate_limiter_as_a_servic.Limiter.{
  Key, errors_is, Policy, Result, Error, Decision, ok, key_beq, sentinel, eof, plain,
}
use rate_limiter_as_a_servic.Base.{
  ℤ, pos, Dict, ℕ, List, ◌≡◌, lookup, Option, none, some, insert, ◌+◌, ◌∷◌, if◌then◌else◌, [], ◌||◌,
  leb_ℤ, floor_mod, ◌+ℤ◌, quot, add64, sub64, ◌-ℤ◌, true, refl,
}
use rate_limiter_as_a_servic.FixedWindow.{FixedWindowRateLimiter, fresh, allow, window_for, decide}
use text.Mathlib.Text.{◌==◌ as str_eq}
use rate_limiter_as_a_servic.Api.Metrics.{
  series_eq, series_beq, Series, ApiMetrics, new_api_metrics, known_from, count, quota_rejected,
  allowed, has_resource,
}
use rate_limiter_as_a_servic.Api.Metrics.Known.{is_some, observed, series_after_requests}
use rate_limiter_as_a_servic.Api.Check.{
  check_rate_limit, check_rate_limit_handler, answer_decision, Handled,
}
use rate_limiter_as_a_servic.Api.Check.Shape.{IsAnswer}
use rate_limiter_as_a_servic.Api.Check.Answers.{
  Accepts, key_of, check_rate_limit-IsAnswer, check_rate_limit_granted,
}
use rate_limiter_as_a_servic.Api.Check.Counts.{count-check_rate_limit_handler, due}
use rate_limiter_as_a_servic.Api.Http.{
  read_json, write_json, CheckRateLimitPayload, Header, new_writer, RequestBody, bad_request_error,
  write_error_json,
}

abbrev client : Key
client = record { client_id = "client-a"; resource = "openai" }

abbrev table : Dict Key Policy
table = (client, record { limit = pos 3; window = minute }) ∷ []

-- A validator that does what the tags of the payload ask.
abbrev validate_struct : CheckRateLimitPayload → Option Error
validate_struct payload =
    if str_eq payload.client_id "" || str_eq payload.resource "" || leb_ℤ payload.cost (pos 0)
    then some (plain "invalid payload")
    else none

abbrev limiter : FixedWindowRateLimiter → Key → ℤ → Result Decision × FixedWindowRateLimiter
limiter l key cost = allow l none (pos 90_000_000_000) key cost

abbrev asks : ℕ → RequestBody
asks cost = record {
  first = ok (record { client_id = "client-a"; resource = "openai"; cost = pos cost });
  second = some (sentinel eof);
}

abbrev handled : ℕ → Handled × FixedWindowRateLimiter
handled cost =
    check_rate_limit validate_struct limiter (pos 5_000_000_000) (fresh table) (new_writer none)
      (asks cost)

abbrev status_sent : Option (ℕ × Header) → ℕ
status_sent none = 0
status_sent (some (status, header)) = status

abbrev sent_statuses : List ℕ
sent_statuses =
    status_sent (handled 2).0.writer.sent
    ∷ status_sent (handled 4).0.writer.sent
    ∷ status_sent (handled 0).0.writer.sent
    ∷ []

statuses : sent_statuses ≡ 200 ∷ 429 ∷ 400 ∷ []
unfolding check_rate_limit read_json errors_is allow decide window_for lookup insert key_beq
    truncate floor_mod sub milliseconds quot add64 sub64 ◌+ℤ◌ ◌-ℤ◌ answer_decision write_json
    bad_request_error write_error_json
statuses = refl

check_rate_limit-IsAnswer_example : IsAnswer (handled 2).0
check_rate_limit-IsAnswer_example =
    check_rate_limit-IsAnswer validate_struct limiter (pos 5_000_000_000) (fresh table) (asks 2)

check_rate_limit_granted_example :
    (payload : CheckRateLimitPayload) × (d : Decision) × Accepts validate_struct (asks 2) payload
    × (limiter (fresh table) (key_of payload) payload.cost ≡ (ok d, (handled 2).1))
    × (d.allowed ≡ true)
unfolding check_rate_limit read_json errors_is allow decide window_for lookup insert key_beq
    truncate floor_mod sub milliseconds quot add64 sub64 ◌+ℤ◌ ◌-ℤ◌ answer_decision write_json
check_rate_limit_granted_example =
    check_rate_limit_granted validate_struct limiter (pos 5_000_000_000) (fresh table) none (asks 2)
      (record { content_type = some "application/json"; retry_after = none }) refl

abbrev denied_series : Series
denied_series = record { outcome = quota_rejected; resource = "openai" }

abbrev after_denial : ApiMetrics × Handled × FixedWindowRateLimiter
after_denial =
    check_rate_limit_handler validate_struct limiter (pos 5_000_000_000) (new_api_metrics table)
      (fresh table) (new_writer none) (asks 4) (pos 1_000)

count-check_rate_limit_handler_example :
    (count after_denial.0 denied_series
      ≡ count (new_api_metrics table) denied_series
        + (if series_beq denied_series (
              due validate_struct limiter
                (pos 5_000_000_000)
                (new_api_metrics table)
                (fresh table)
                none
                (asks 4))
            then 1
            else 0))
    × (after_denial.0.in_flight ≡ (new_api_metrics table).in_flight)
count-check_rate_limit_handler_example =
    count-check_rate_limit_handler validate_struct limiter (pos 5_000_000_000)
      (new_api_metrics table) (fresh table) none (asks 4) (pos 1_000) denied_series

series_after_requests_example :
    is_some (
      lookup
        (record { outcome = allowed; resource = "made-up" })
        (observed (new_api_metrics table) (("made-up", allowed, pos 1) ∷ [])).decisions)
    ≡ has_resource "made-up" (known_from table)
series_after_requests_example =
    series_after_requests table (("made-up", allowed, pos 1) ∷ [])
      (record { outcome = allowed; resource = "made-up" })

-- A second after the circuit has opened for five.
abbrev open_breaker : CircuitBreakerLimiter
open_breaker = record {
  config = record {
    failure_threshold = pos 3;
    open_timeout = pos 5_000_000_000;
    decision_timeout = pos 300_000_000;
  };
  state = circuit_open;
  failures = pos 3;
  opened_at = pos 89_000_000_000;
  probe_running = false;
}

abbrev pong : Option Error
pong = none

not_ready : status_of (readiness "test" open_breaker (pos 90_000_000_000) none none) ≡ 503
unfolding readiness_check_handler redis_readiness_check ready write_json sub ◌-ℤ◌
not_ready = refl

readiness-answers_example :
    ((status_of (readiness "test" open_breaker (pos 90_000_000_000) none none) ≡ 200)
      × (pong ≡ none)
      × ((start_request open_breaker (pos 90_000_000_000)).0 ≡ true))
    ⊎ ((status_of (readiness "test" open_breaker (pos 90_000_000_000) none none) ≡ 503)
        × (((e : Error) × (pong ≡ some e)) ⊎ Refuses limiter open_breaker (pos 90_000_000_000)))
readiness-answers_example =
    readiness-answers limiter "test" open_breaker (pos 90_000_000_000) none none
