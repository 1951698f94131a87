-- ===== src/Api/Service/Recorded.antt =====
-- A check that is answered by 200 and the row that the worker stores for it.
use rate_limiter_as_a_servic.Clock.{Duration}
use rate_limiter_as_a_servic.Limiter.{Error, Result, Decision, Key, Policy, key_eq, ok}
use rate_limiter_as_a_servic.Base.{
  ℤ, String, Option, some, ◌≡◌, true, false, lookup, ◌∷◌, [], ◌++◌, ap, sym, ◌∙◌,
}
use rate_limiter_as_a_servic.Floats.{Float64}
use rate_limiter_as_a_servic.Events.Decode.{approval_request}
use rate_limiter_as_a_servic.RedisBucket.Server.{Redis, LuaText, Fields}
use rate_limiter_as_a_servic.RedisBucket.Keys.{IsEncoding}
use rate_limiter_as_a_servic.RedisBucket.Limiter.{RedisTokenBucketRateLimiter, redis_key}
use rate_limiter_as_a_servic.RedisBucket.Limiter.Buckets.{Reach}
use rate_limiter_as_a_servic.RedisBucket.Recorded.{IsClock, Reads}
use rate_limiter_as_a_servic.RedisBucket.Recorded.Approved.{
  IsRecordable, row_of, allow-approval_request,
}
use rate_limiter_as_a_servic.Breaker.{CircuitBreakerLimiter}
use rate_limiter_as_a_servic.Breaker.Recover.{allow-ok}
use rate_limiter_as_a_servic.Api.Http.{CheckRateLimitPayload, RequestBody, Header, new_writer}
use rate_limiter_as_a_servic.Api.Check.Answers.{
  Accepts, key_of, check_rate_limit_granted, check_rate_limit_sent, sent_body,
}
use rate_limiter_as_a_servic.Api.Service.{Passage, Backend, redis_limiter, rate_limiter, check}
use text.Mathlib.Text.{◌==◌ as str_eq}

module _ (N : Float64) (T : LuaText N) (S : Redis) (encode : String → String)
    (parse_int : String → Result ℤ) (l : RedisTokenBucketRateLimiter) where
  rate_limiter-ok :
      (passage : Passage) (breaker : CircuitBreakerLimiter) (r : S.R) (key : Key) (cost : ℤ)
      (dec : Decision) (after : Backend N T S encode l)
      → rate_limiter N T S encode l passage (breaker, r) key cost ≡ (ok dec, after)
      → redis_limiter N T S encode l passage r key cost ≡ (ok dec, after.1)
  unfolding rate_limiter
  rate_limiter-ok passage breaker r key cost dec after same =
      let inside =
        allow-ok (redis_limiter N T S encode l passage) breaker r key cost passage.started
          passage.ended passage.err_after dec (ap (λ x. x.0) same) in
      inside ∙ ap (λ x. (ok dec, (x.1).1)) same

  -- From the HTTP request to the row in PostgreSQL. Let the keys be encoded without a colon and
  -- apart, no bucket have the key of the stream, each policy be valid, of at least a millisecond and
  -- within 32 bits, each client and resource have a name, and `ParseInt` read the integers that Lua
  -- writes. If a check is then answered by 200, in a state of Redis that the limiter's calls lead to
  -- and at a time before the year 5138, then its body was accepted, the stream ends with one new
  -- entry, and whatever ID Redis gives it, the worker decodes it to the row of the body's client,
  -- resource and cost, of the time of Redis and of the remaining tokens of the decision.
  pub check_granted-row :
      Reads N T S parse_int
      → IsEncoding encode
      → ((key : Key) → str_eq (redis_key encode l key) l.event_stream ≡ false)
      → ((key : Key) (p : Policy) → lookup key l.policies ≡ some p → IsRecordable key p)
      → (validate_struct : CheckRateLimitPayload → Option Error) (open_timeout : Duration)
        (passage : Passage) (breaker : CircuitBreakerLimiter) (r : S.R) (broken : Option Error)
        (body : RequestBody) (header : Header) (id : String)
      → Reach N T S encode l r
      → IsClock (S.time r)
      → (check N T S encode l validate_struct open_timeout passage
          (breaker, r)
          (new_writer broken)
          body).0.writer.sent
        ≡ some (200, header)
      → (payload : CheckRateLimitPayload) × (dec : Decision) × (f : Fields) × Accepts
          validate_struct body payload
        × (dec.allowed ≡ true)
        × (rate_limiter N T S encode l passage (breaker, r) (key_of payload) payload.cost ≡ (
          ok dec,
          (check N T S encode l validate_struct open_timeout passage
              (breaker, r)
              (new_writer broken)
              body).1,
        ))
        × ((check N T S encode l validate_struct open_timeout passage
              (breaker, r)
              (new_writer broken)
              body).0.writer.body
            ≡ sent_body broken dec)
        × (S.entries
              ((check N T S encode l validate_struct open_timeout passage
                  (breaker, r)
                  (new_writer broken)
                  body).1
                ).1
              l.event_stream
            ≡ S.entries r l.event_stream ++ f ∷ [])
        × (approval_request parse_int (record { id = id; values = f })
            ≡ ok (row_of N T S encode parse_int l r id (key_of payload) payload.cost dec))
  check_granted-row reads encoding apart recordable validate_struct open_timeout passage breaker r
        broken body header id reach clock sent =
      let (payload, dec, accepted, decided, granted) =
        check_rate_limit_granted validate_struct (rate_limiter N T S encode l passage) open_timeout
          (breaker, r) broken body header sent in
      let after =
        (check N T S encode l validate_struct open_timeout passage (breaker, r) (new_writer broken)
          body).1 in
      let inside =
        rate_limiter-ok passage breaker r (key_of payload) payload.cost dec after decided in
      let (f, appended, decodes) =
        allow-approval_request N T S encode parse_int l reads encoding apart recordable r
          passage.delivery passage.err_before (key_of payload) payload.cost dec id reach clock
          (ap (λ x. x.0) inside) granted in
      (
        payload,
        dec,
        f,
        accepted,
        granted,
        decided,
        check_rate_limit_sent validate_struct (rate_limiter N T S encode l passage) open_timeout
            (breaker, r) broken body payload dec after accepted decided granted,
        sym (ap (λ x. S.entries x.1 l.event_stream) inside) ∙ appended,
        decodes,
      )
