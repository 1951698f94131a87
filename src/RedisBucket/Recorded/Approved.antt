-- ===== src/RedisBucket/Recorded/Approved.antt =====
-- An approved request and the row that the worker stores for it.
use rate_limiter_as_a_servic.Clock.{unix_milli}
use rate_limiter_as_a_servic.Limiter.{Key, Policy, Error, Decision, Result, ok, key_eq}
use rate_limiter_as_a_servic.Floats.{Float64}
use rate_limiter_as_a_servic.RedisBucket.Server.{Redis, LuaText, Fields}
use rate_limiter_as_a_servic.RedisBucket.Keys.{IsEncoding}
use rate_limiter_as_a_servic.RedisBucket.Script.{event, now_ms, stored_tokens}
use rate_limiter_as_a_servic.RedisBucket.Limiter.{
  RedisTokenBucketRateLimiter, Delivery, redis_key, arguments, allow,
}
use rate_limiter_as_a_servic.RedisBucket.Limiter.Buckets.{IsStorable, Reach, next_tokens-Within}
use rate_limiter_as_a_servic.RedisBucket.Limiter.Approvals.{allow_granted, entries_after}
use rate_limiter_as_a_servic.RedisBucket.Recorded.{
  IsClock, clock_ms, Reads, now_ms-clock, event_decodes, clock_ms-bounds,
}
use rate_limiter_as_a_servic.Events.Decode.{
  CreateApprovedRequestParams, approval_request, string_keys, max_int32,
}
use text.Mathlib.Text.{◌==◌ as str_eq}
use rate_limiter_as_a_servic.Base.{
  ℤ, String, Option, some, ◌≡◌, true, false, lookup, ◌≤ℤ◌, ap, sym, ◌∙◌, arith, ◌∷◌, [], ◌++◌,
}

-- A key and a policy that the column types can hold.
pub record IsRecordable (key : Key) (p : Policy) : Type 0 where
  pub storable : IsStorable p
  pub limit_word : p.limit ≤ℤ max_int32
  pub has_client : str_eq key.client_id "" ≡ false
  pub has_resource : str_eq key.resource "" ≡ false

module _ (N : Float64) (T : LuaText N) (S : Redis) (encode : String → String)
    (parse_int : String → Result ℤ) (l : RedisTokenBucketRateLimiter) where
  open N use {of_int, floor, to_int, subtract}

  -- What the worker stores of an approval.
  abbrev pub row_of : S.R → String → Key → ℤ → Decision → CreateApprovedRequestParams
  row_of r id key cost dec = record {
    stream_id = id;
    client_id = key.client_id;
    resource = key.resource;
    cost = cost;
    approved_at = unix_milli (clock_ms (S.time r));
    remaining = dec.remaining;
  }

  module _ (reads : Reads N T S parse_int) (encoding : IsEncoding encode)
      (apart : (key : Key) → str_eq (redis_key encode l key) l.event_stream ≡ false)
      (recordable : (key : Key) (p : Policy)
        → lookup key l.policies ≡ some p
        → IsRecordable key p) where
    -- What an approval reports is what the worker stores. Let the keys be encoded without a colon
    -- and apart, no bucket have the key of the stream, each policy be valid, of at least a
    -- millisecond and within 32 bits, each client and resource have a name, and `ParseInt` read the
    -- integers that Lua writes. If `Allow` then reports that a request is allowed, in a state of
    -- Redis that its calls lead to and at a time before the year 5138, the stream ends with one new
    -- entry, and whatever ID Redis gives it, the worker decodes it to the row of the request's
    -- client, resource and cost, of the time of Redis in milliseconds and of the remaining tokens
    -- that the decision reports.
    pub allow-approval_request :
        (r : S.R) (d : Delivery) (ctx_err : Option Error) (key : Key) (cost : ℤ) (dec : Decision)
        (id : String)
        → Reach N T S encode l r
        → IsClock (S.time r)
        → (allow N T S encode l r d ctx_err key cost).0 ≡ ok dec
        → dec.allowed ≡ true
        → (f : Fields) × (S.entries (allow N T S encode l r d ctx_err key cost).1 l.event_stream
            ≡ S.entries r l.event_stream ++ f ∷ [])
          × (approval_request parse_int (record { id = id; values = f })
              ≡ ok (row_of r id key cost dec))
    unfolding arguments
    allow-approval_request r d ctx_err key cost dec id reach clock answer granted =
        let (p, known, positive, fit, (covered, room, left, after)) =
          allow_granted N T S encode l r d ctx_err key cost dec answer granted in
        let a = arguments N T S encode l key p cost in
        let tokens = subtract (stored_tokens N T S r a) (of_int cost) in
        let it = recordable key p known in
        let within =
          next_tokens-Within N T S encode l encoding apart
            (λ k q there. (recordable k q there).storable) r key p cost reach known positive fit
            covered in
        let (_, _, early, late) = clock_ms-bounds (S.time r).0 (S.time r).1 clock in
        (
          event N T S a (now_ms N T S r) tokens,
          ap (λ r'. S.entries r' l.event_stream) after
              ∙ entries_after N T S encode l r key p cost tokens true (apart key),
          ap (λ x. approval_request parse_int (record { id = id; values = event N T S a x tokens }))
                (now_ms-clock N T S parse_int r clock)
              ∙ event_decodes N T S parse_int a p (clock_ms (S.time r)) tokens id reads
                  (record { valid = it.storable.valid; limit_exact = omega (arith, it.limit_word) })
                  it.limit_word within (positive, fit) (early, late) it.has_client it.has_resource
              ∙ ap (λ n. ok (record (row_of r id key cost dec) { remaining = n })) (sym left),
        )
