-- ===== src/Api/Service/Shipped.antt =====
-- The configuration that the repository ships: its policies, and the stream that the worker reads
-- where the environment names no other.
use rate_limiter_as_a_servic.RedisBucket.Limiter.{RedisTokenBucketConfig}
use rate_limiter_as_a_servic.Config.Api.Loaded.{load_config-limiter}
use rate_limiter_as_a_servic.Api.Service.Defaults.{
  default_stream_apart, shipped_policies-AllRecordable,
}
use rate_limiter_as_a_servic.RedisBucket.Recorded.Policies.{lookup-AllRecordable}
use rate_limiter_as_a_servic.Limiter.{Error, Result, Decision}
use rate_limiter_as_a_servic.Clock.{Duration}
use rate_limiter_as_a_servic.Floats.{Float64}
use rate_limiter_as_a_servic.Events.Decode.{approval_request}
use rate_limiter_as_a_servic.RedisBucket.Server.{Redis, LuaText, Fields}
use rate_limiter_as_a_servic.RedisBucket.Keys.{IsEncoding}
use rate_limiter_as_a_servic.RedisBucket.Limiter.{with_defaults}
use rate_limiter_as_a_servic.RedisBucket.Limiter.Buckets.{Reach}
use rate_limiter_as_a_servic.RedisBucket.Recorded.{IsClock, Reads}
use rate_limiter_as_a_servic.RedisBucket.Recorded.Approved.{row_of}
use rate_limiter_as_a_servic.Breaker.{CircuitBreakerLimiter}
use rate_limiter_as_a_servic.Api.Http.{CheckRateLimitPayload, RequestBody, Header, new_writer}
use rate_limiter_as_a_servic.Api.Check.Answers.{Accepts, key_of, sent_body}
use rate_limiter_as_a_servic.Api.Service.{Passage, check, rate_limiter}
use rate_limiter_as_a_servic.Api.Service.Recorded.{check_granted-row}
use rate_limiter_as_a_servic.Config.Api.{token_bucket_policies, Config, load_config}
use rate_limiter_as_a_servic.Config.{Environment}
use rate_limiter_as_a_servic.Limiter.{ok}
use Prim.Native.String.{String}
use text.Mathlib.Text.{◌==◌ as str_eq}
use rate_limiter_as_a_servic.Limiter.{Key, key_eq, Policy}
use rate_limiter_as_a_servic.Base.{
  true, false, ◌≡◌, ap, sym, subst, lookup, some, if◌then◌else◌, ◌∷◌, [], ◌++◌, String, Option, ℤ,
  Dict,
}
use rate_limiter_as_a_servic.RedisBucket.Limiter.{
  RedisTokenBucketRateLimiter, redis_key, default_key_prefix, default_event_stream,
}

-- The limiter of a configuration that loads, with the default stream.
abbrev pub limiter_of : Config → RedisTokenBucketRateLimiter
limiter_of cfg = with_defaults cfg.token_bucket_policies cfg.redis_limiter_cfg

pub stream-limiter_of :
    (cfg : Config)
    → cfg.redis_limiter_cfg.event_stream ≡ default_event_stream
    → (limiter_of cfg).event_stream ≡ default_event_stream
stream-limiter_of cfg stream = ap (λ k. if str_eq k "" then default_event_stream else k) stream

limiter_of-shipped :
    (env : Environment) (cfg : Config)
    → load_config env ≡ ok cfg
    → cfg.redis_limiter_cfg.event_stream ≡ default_event_stream
    → ((limiter_of cfg).key_prefix ≡ default_key_prefix)
      × ((limiter_of cfg).event_stream ≡ default_event_stream)
      × ((limiter_of cfg).policies ≡ token_bucket_policies)
limiter_of-shipped env cfg loads stream =
    let (policies, settings) = load_config-limiter env cfg loads in
    (
      ap
          (λ (c : RedisTokenBucketConfig).
            if str_eq c.key_prefix "" then default_key_prefix else c.key_prefix)
          settings,
      stream-limiter_of cfg stream,
      policies,
    )

module _ (N : Float64) (T : LuaText N) (S : Redis) (encode : String → String)
    (parse_int : String → Result ℤ) (env : Environment) (cfg : Config) where
  -- From the HTTP request to the row in PostgreSQL, for the program as it is shipped: let the
  -- configuration load, with the default stream, the keys be encoded without a colon and apart, and
  -- `ParseInt` read the integers that Lua writes. If a check is answered by 200, in a state of Redis
  -- that the limiter's calls lead to and at a time before the year 5138, then its body was accepted,
  -- the stream ends with one new entry, and whatever ID Redis gives it, the worker decodes it to the
  -- row of the body's client, resource and cost, of the time of Redis and of the remaining tokens of
  -- the decision.
  pub check_granted-row_shipped :
      load_config env ≡ ok cfg
      → cfg.redis_limiter_cfg.event_stream ≡ default_event_stream
      → Reads N T S parse_int
      → IsEncoding encode
      → (validate_struct : CheckRateLimitPayload → Option Error) (open_timeout : Duration)
        (passage : Passage) (breaker : CircuitBreakerLimiter) (r : S.R) (broken : Option Error)
        (body : RequestBody) (header : Header) (id : String)
      → Reach N T S encode (limiter_of cfg) r
      → IsClock (S.time r)
      → (check N T S encode
          (limiter_of cfg)
          validate_struct
          open_timeout
          passage
          (breaker, r)
          (new_writer broken)
          body).0.writer.sent
        ≡ some (200, header)
      → (payload : CheckRateLimitPayload) × (dec : Decision) × (f : Fields) × Accepts
          validate_struct body payload
        × (dec.allowed ≡ true)
        × (rate_limiter N T S encode
              (limiter_of cfg)
              passage
              (breaker, r)
              (key_of payload)
              payload.cost
            ≡ (
              ok dec,
              (check N T S encode
                  (limiter_of cfg)
                  validate_struct
                  open_timeout
                  passage
                  (breaker, r)
                  (new_writer broken)
                  body).1,
            ))
        × ((check N T S encode
              (limiter_of cfg)
              validate_struct
              open_timeout
              passage
              (breaker, r)
              (new_writer broken)
              body).0.writer.body
            ≡ sent_body broken dec)
        × (S.entries
              ((check N T S encode
                  (limiter_of cfg)
                  validate_struct
                  open_timeout
                  passage
                  (breaker, r)
                  (new_writer broken)
                  body).1
                ).1
              (limiter_of cfg).event_stream
            ≡ S.entries r (limiter_of cfg).event_stream ++ f ∷ [])
        × (approval_request parse_int (record { id = id; values = f })
            ≡ ok (
                row_of N T S encode parse_int
                  (limiter_of cfg)
                  r
                  id
                  (key_of payload)
                  payload.cost
                  dec))
  check_granted-row_shipped loads stream reads encoding =
      let (prefix, name, policies) = limiter_of-shipped env cfg loads stream in
      check_granted-row N T S encode parse_int (limiter_of cfg) reads encoding
        (λ key.
          subst (λ s. str_eq (redis_key encode (limiter_of cfg) key) s ≡ false) (sym name)
            (default_stream_apart encode (limiter_of cfg) key prefix))
        (λ key p known.
          lookup-AllRecordable token_bucket_policies key p shipped_policies-AllRecordable
            (subst (λ (t : Dict Key Policy). lookup key t ≡ some p) policies known))
