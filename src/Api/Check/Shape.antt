-- ===== src/Api/Check/Shape.antt =====
-- The shape of an answer of `POST /v1/check`.
use rate_limiter_as_a_servic.Limiter.{
  Error, Decision, error_text, Result, errors_is, unavailable, event_backlog_full, no_policy,
  invalid_cost, cost_exceeds_limit,
}
use rate_limiter_as_a_servic.Clock.{Duration}
use rate_limiter_as_a_servic.Api.Check.{
  Handled, answer_decision, answer_error, decision_body, write_json, Duration, some, String, Error,
  Decision, refuse, service_unavailable_error, not_found_error, Result, internal_server_error,
  answer, errors_is, ok, unavailable, err, event_backlog_full, no_policy, invalid_cost,
  cost_exceeds_limit,
}
use rate_limiter_as_a_servic.Api.Http.{
  Body, bad_request_error, Header, write_error_json, write_json, new_writer,
  service_unavailable_error, not_found_error, internal_server_error, retry_after_seconds,
}
use rate_limiter_as_a_servic.Base.{
  ℕ, Bool, Option, true, false, ◌≡◌, String, ◌∷◌, none, [], refl, sym, if◌then◌else◌, ◌||◌, ap,
}
use rate_limiter_as_a_servic.Api.Metrics.{
  Outcome, allowed, quota_rejected, invalid_request, unknown_policy, backlog_full,
  dependency_unavailable, internal_error,
}

-- The status that each outcome of the metrics stands for.
abbrev pub status_of : Outcome → ℕ
status_of allowed = 200
status_of quota_rejected = 429
status_of invalid_request = 400
status_of unknown_policy = 404
status_of backlog_full = 503
status_of dependency_unavailable = 503
status_of internal_error = 500

abbrev pub is_decision : Outcome → Bool
is_decision allowed = true
is_decision quota_rejected = true
is_decision _ = false

abbrev pub is_decision_body : Body → Bool
is_decision_body (decision_body _) = true
is_decision_body _ = false

abbrev pub carries_retry : Outcome → Bool
carries_retry quota_rejected = true
carries_retry backlog_full = true
carries_retry dependency_unavailable = true
carries_retry _ = false

abbrev pub has_value {ℓ} : {A : Type ℓ} → Option A → Bool
has_value none = false
has_value (some _) = true

-- A complete answer: one status line and one JSON object that fit the outcome.
pub record IsAnswer (h : Handled) : Type 0 where
  pub header : Header
  pub object : Body
  pub status_sent : h.writer.sent ≡ some (status_of h.outcome, header)
  pub is_json : header.content_type ≡ some "application/json"
  pub retry_sent : has_value header.retry_after ≡ carries_retry h.outcome
  pub one_object : h.writer.body ≡ object ∷ []
  pub object_fits : is_decision_body object ≡ is_decision h.outcome

error-IsAnswer :
    (resource : String) (o : Outcome) (message : String)
    → is_decision o ≡ false
    → carries_retry o ≡ false
    → IsAnswer (record {
      resource = resource;
      outcome = o;
      writer = write_error_json (new_writer none) (status_of o) message;
    })
unfolding write_error_json write_json
error-IsAnswer resource o message no_decision no_retry = record {
  header = _;
  object = _;
  status_sent = refl;
  is_json = refl;
  retry_sent = sym no_retry;
  one_object = refl;
  object_fits = sym no_decision;
}

later-IsAnswer :
    (resource : String) (o : Outcome) (open_timeout : Duration) (e : Error)
    → status_of o ≡ 503
    → is_decision o ≡ false
    → carries_retry o ≡ true
    → IsAnswer (record {
      resource = resource;
      outcome = o;
      writer = service_unavailable_error open_timeout (new_writer none) e;
    })
unfolding service_unavailable_error write_error_json write_json
later-IsAnswer resource o open_timeout e status no_decision retry =
    let header : Header = record {
      content_type = some "application/json";
      retry_after = some (retry_after_seconds open_timeout);
    } in
    record {
      header = header;
      object = _;
      status_sent = ap (λ n. some (n, header)) (sym status);
      is_json = refl;
      retry_sent = sym retry;
      one_object = refl;
      object_fits = sym no_decision;
    }

if-IsAnswer : (b : Bool) {g h : Handled} → IsAnswer g → IsAnswer h → IsAnswer (if b then g else h)
if-IsAnswer true p q = p
if-IsAnswer false p q = q

answer_decision-IsAnswer :
    (resource : String) (d : Decision) → IsAnswer (answer_decision resource (new_writer none) d)
unfolding answer_decision write_json
answer_decision-IsAnswer resource d =
    if-IsAnswer d.allowed
      (record {
        header = _;
        object = _;
        status_sent = refl;
        is_json = refl;
        retry_sent = refl;
        one_object = refl;
        object_fits = refl;
      })
      (record {
        header = _;
        object = _;
        status_sent = refl;
        is_json = refl;
        retry_sent = refl;
        one_object = refl;
        object_fits = refl;
      })

answer_error-IsAnswer :
    (open_timeout : Duration) (resource : String) (e : Error)
    → IsAnswer (answer_error open_timeout resource (new_writer none) e)
unfolding answer_error not_found_error bad_request_error internal_server_error
answer_error-IsAnswer open_timeout resource e =
    if-IsAnswer (errors_is e unavailable)
      (later-IsAnswer resource dependency_unavailable open_timeout e refl refl refl)
      (if-IsAnswer (errors_is e event_backlog_full)
        (later-IsAnswer resource backlog_full open_timeout e refl refl refl)
        (if-IsAnswer (errors_is e no_policy)
          (error-IsAnswer resource unknown_policy (error_text e) refl refl)
          (if-IsAnswer (errors_is e invalid_cost || errors_is e cost_exceeds_limit)
            (error-IsAnswer resource invalid_request (error_text e) refl refl)
            (error-IsAnswer resource internal_error "rate-limit check failed" refl refl))))

pub refuse-IsAnswer :
    (resource : String) (e : Error) → IsAnswer (refuse resource (new_writer none) e)
unfolding bad_request_error
refuse-IsAnswer resource e = error-IsAnswer resource invalid_request (error_text e) refl refl

pub answer-IsAnswer :
    (open_timeout : Duration) (resource : String) (r : Result Decision)
    → IsAnswer (answer open_timeout resource (new_writer none) r)
answer-IsAnswer open_timeout resource (ok d) = answer_decision-IsAnswer resource d
answer-IsAnswer open_timeout resource (err e) = answer_error-IsAnswer open_timeout resource e
