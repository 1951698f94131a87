-- ===== src/Api/Check/Answers.antt =====
-- What a client of `POST /v1/check` gets.
use rate_limiter_as_a_servic.Api.Check.Shape.{IsAnswer, refuse-IsAnswer, answer-IsAnswer}
use rate_limiter_as_a_servic.Limiter.{Error, Decision, Result, Key, Result-cases}
use rate_limiter_as_a_servic.Clock.{Duration}
use rate_limiter_as_a_servic.Api.Check.{
  response_of, answer_decision, answer_error, write_json, Duration, some, String, Error, Decision,
  refuse, service_unavailable_error, not_found_error, Result, CheckRateLimitPayload,
  internal_server_error, answer, RequestBody, Key, ok, read_json, check_rate_limit, err,
  ResponseWriter, unknown_metric_resource, decoded, validated,
}
use rate_limiter_as_a_servic.Api.Http.{
  Body, decision_body, bad_request_error, Header, write_error_json, write_json, new_writer,
  service_unavailable_error, not_found_error, CheckRateLimitPayload, internal_server_error,
  RequestBody, read_json, ResponseWriter,
}
use rate_limiter_as_a_servic.Base.{
  ℤ, ℕ, List, [], ◌∷◌, Bool, Option, true, false, ◌≡◌, String, none, refl, sym, inl, ◌⊎◌, inr,
  Option-cases, nat_eq, arith, ◌∙◌, ap,
}
use rate_limiter_as_a_servic.Api.Metrics.{unknown_metric_resource}

pair_eq : {A B : Type 0} {a : A} {b : B} (x : A × B) → x.0 ≡ a → x.1 ≡ b → x ≡ (a, b)
pair_eq x p q = cc

abbrev is_granted : Option (ℕ × Header) → Bool
is_granted none = false
is_granted (some (status, header)) = nat_eq status 200

refuse_not_granted :
    (broken : Option Error) (resource : String) (e : Error)
    → is_granted (refuse resource (new_writer broken) e).writer.sent ≡ false
unfolding bad_request_error write_error_json write_json
refuse_not_granted none resource e = refl
refuse_not_granted (some b) resource e = refl

answer_decision_granted :
    (broken : Option Error) (resource : String) (d : Decision)
    → is_granted (answer_decision resource (new_writer broken) d).writer.sent ≡ d.allowed
unfolding answer_decision write_json internal_server_error write_error_json
answer_decision_granted none resource d = ground arith
answer_decision_granted (some b) resource d = ground arith

answer_error_not_granted :
    (broken : Option Error) (open_timeout : Duration) (resource : String) (e : Error)
    → is_granted (answer_error open_timeout resource (new_writer broken) e).writer.sent ≡ false
unfolding answer_error service_unavailable_error not_found_error bad_request_error
    internal_server_error write_error_json write_json
answer_error_not_granted none open_timeout resource e = ground arith
answer_error_not_granted (some b) open_timeout resource e = ground arith

answer_granted :
    (broken : Option Error) (open_timeout : Duration) (resource : String) (r : Result Decision)
    → is_granted (answer open_timeout resource (new_writer broken) r).writer.sent ≡ true
    → (d : Decision) × (r ≡ ok d) × (d.allowed ≡ true)
answer_granted broken open_timeout resource (ok d) granted =
    (d, refl, sym (answer_decision_granted broken resource d) ∙ granted)
answer_granted broken open_timeout resource (err e) granted =
    let other = answer_error_not_granted broken open_timeout resource e in cc

-- The body of the answer with a decision: a connection that is gone takes nothing.
abbrev pub sent_body : Option Error → Decision → List Body
sent_body none d = decision_body (response_of d) ∷ []
sent_body (some e) d = []

-- A body that both the decoder and the validator accept.
abbrev pub Accepts :
    (CheckRateLimitPayload → Option Error) → RequestBody → CheckRateLimitPayload → Type 0
Accepts validate_struct body payload =
    (read_json body ≡ ok payload) × (validate_struct payload ≡ none)

abbrev pub key_of : CheckRateLimitPayload → Key
key_of payload = record { client_id = payload.client_id; resource = payload.resource }

module _ {S : Type 0} (validate_struct : CheckRateLimitPayload → Option Error)
    (rate_limiter : S → Key → ℤ → Result Decision × S) (open_timeout : Duration) where
  check_cases :
      (s : S) (w : ResponseWriter) (body : RequestBody)
      → ((resource : String) × (e : Error) × (check_rate_limit validate_struct rate_limiter
              open_timeout s w body
            ≡ (refuse resource w e, s)))
        ⊎ ((payload : CheckRateLimitPayload) × Accepts validate_struct body payload
            × (check_rate_limit validate_struct rate_limiter open_timeout s w body ≡ (
              answer open_timeout payload.resource w
                  (rate_limiter s (key_of payload) payload.cost).0,
              (rate_limiter s (key_of payload) payload.cost).1,
            )))
  unfolding check_rate_limit
  check_cases s w body = elim (Result-cases (read_json body)) [
    | inr (e, bad) ↦
        inl (
          unknown_metric_resource,
          e,
          ap (decoded validate_struct rate_limiter open_timeout s w) bad,
        )
    | inl (payload, good) ↦
        let reads = ap (decoded validate_struct rate_limiter open_timeout s w) good in
        elim (Option-cases (validate_struct payload)) [
          | inl valid ↦ inr (
            payload,
            (good, valid),
            reads ∙ ap (validated validate_struct rate_limiter open_timeout s w payload) valid,
          )
          | inr (e, invalid) ↦ inl (
            payload.resource,
            e,
            reads ∙ ap (validated validate_struct rate_limiter open_timeout s w payload) invalid,
          )
        ]
  ]

  -- A request that is allowed is answered by the decision, unless the connection is gone.
  pub check_rate_limit_sent :
      (s : S) (broken : Option Error) (body : RequestBody) (payload : CheckRateLimitPayload)
      (d : Decision) (s' : S)
      → Accepts validate_struct body payload
      → rate_limiter s (key_of payload) payload.cost ≡ (ok d, s')
      → d.allowed ≡ true
      → (check_rate_limit validate_struct rate_limiter open_timeout s
          (new_writer broken)
          body).0.writer.body
        ≡ sent_body broken d
  unfolding check_rate_limit answer_decision write_json internal_server_error write_error_json
  check_rate_limit_sent s none body payload d s' (good, valid) decided granted =
      rw (good, valid, decided, granted) refl
  check_rate_limit_sent s (some e) body payload d s' (good, valid) decided granted =
      rw (good, valid, decided, granted) refl

  -- Over a working connection every request is answered by one status line and one JSON object, and
  -- the status is that of the outcome which the metrics record; the object is a decision exactly if
  -- the status is 200 or 429, and Retry-After is sent exactly with 429 and 503.
  pub check_rate_limit-IsAnswer :
      (s : S) (body : RequestBody)
      → IsAnswer
          (check_rate_limit validate_struct rate_limiter open_timeout s (new_writer none) body).0
  check_rate_limit-IsAnswer s body = elim (check_cases s (new_writer none) body) [
    | inl (resource, e, same) ↦ rw same (refuse-IsAnswer resource e)
    | inr (payload, accepted, same) ↦ rw same (
        answer-IsAnswer open_timeout payload.resource
          (rate_limiter s (key_of payload) payload.cost).0)
  ]

  -- The service fails closed: also when the connection breaks, a request is answered by status 200
  -- only if its body was accepted and the limiter, called once with the body's key and cost, has
  -- allowed it; the limiter's state is then what that call has left.
  pub check_rate_limit_granted :
      (s : S) (broken : Option Error) (body : RequestBody) (header : Header)
      → (check_rate_limit validate_struct rate_limiter open_timeout s
          (new_writer broken)
          body).0.writer.sent
        ≡ some (200, header)
      → (payload : CheckRateLimitPayload) × (d : Decision) × Accepts validate_struct body payload
        × (rate_limiter s (key_of payload) payload.cost ≡ (
          ok d,
          (check_rate_limit validate_struct rate_limiter open_timeout s (new_writer broken) body).1,
        ))
        × (d.allowed ≡ true)
  check_rate_limit_granted s broken body header sent =
      let ok_sent = ap is_granted sent in
      elim (check_cases s (new_writer broken) body) [
        | inl (resource, e, same) ↦
            let refused = refuse_not_granted broken resource e in
            let here = ap (λ x. is_granted (x.0).writer.sent) same in cc
        | inr (payload, accepted, same) ↦
            let result = rate_limiter s (key_of payload) payload.cost in
            let here = ap (λ x. is_granted (x.0).writer.sent) same in
            let (d, decided, granted) =
              answer_granted broken open_timeout payload.resource result.0 (sym here ∙ ok_sent) in
            (payload, d, accepted, pair_eq result decided (sym (ap (λ x. x.1) same)), granted)
      ]
