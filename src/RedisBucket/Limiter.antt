-- ===== src/RedisBucket/Limiter.antt =====
-- `RedisTokenBucketRateLimiter` around the script. Each call of the script may fail on its way: a
-- connection can break before Redis has run it, or when the answer is lost.
pub mod Promise
pub mod Approvals
pub mod Buckets
use rate_limiter_as_a_servic.Clock.{millisecond, unix_milli}
use rate_limiter_as_a_servic.Limiter.{
  Error, Result, Policy, Key, err, wrapped, Decision, error_text, plain, sentinel, ok, invalid_cost,
  no_policy, cost_exceeds_limit, key_eq, event_backlog_full,
}
use rate_limiter_as_a_servic.Floats.{Float64}
use rate_limiter_as_a_servic.TokenBucket.{milliseconds_rounded_up, validate_token_bucket_policies}
use rate_limiter_as_a_servic.RedisBucket.Server.{Redis, LuaText}
use rate_limiter_as_a_servic.RedisBucket.Script.{Arguments, run_script}
use rate_limiter_as_a_servic.Base.{
  [], ◌∷◌, ℤ, pos, Dict, Bool, Option, if◌then◌else◌, List, mul64, eqb_ℤ, not, some, leb_ℤ, ltb_ℤ,
  lookup, none, ◌*ℤ◌,
}
use text.Mathlib.Text.{◌==◌ as str_eq}
use Prim.Native.String.{◌++◌ as append, String}

pub record RedisTokenBucketConfig : Type 0 where
  pub key_prefix : String
  pub event_stream : String
  pub max_event_backlog : ℤ

-- `encode` is `base64.RawURLEncoding.EncodeToString`.
pub record RedisTokenBucketRateLimiter : Type 0 where
  pub policies : Dict Key Policy
  pub key_prefix : String
  pub event_stream : String
  pub max_backlog : ℤ

abbrev pub default_key_prefix : String
default_key_prefix = "rate_limit"

abbrev pub default_event_stream : String
default_event_stream = "rate_limit:approved_requests"

abbrev pub default_max_backlog : ℤ
default_max_backlog = pos 100_000

abbrev pub with_defaults : Dict Key Policy → RedisTokenBucketConfig → RedisTokenBucketRateLimiter
with_defaults policies cfg = record {
  policies = policies;
  key_prefix = if str_eq cfg.key_prefix "" then default_key_prefix else cfg.key_prefix;
  event_stream = if str_eq cfg.event_stream "" then default_event_stream else cfg.event_stream;
  max_backlog =
      if eqb_ℤ cfg.max_event_backlog (pos 0) then default_max_backlog else cfg.max_event_backlog;
}

-- `has_client` tells that the Redis client is not nil.
unfoldable pub new_redis_token_bucket_rate_limiter :
    Bool → Dict Key Policy → RedisTokenBucketConfig → Result RedisTokenBucketRateLimiter
new_redis_token_bucket_rate_limiter has_client policies cfg =
    if not has_client
    then err (plain "redis client is required")
    else elim (validate_token_bucket_policies policies) [
      | some e ↦ err e
      | none ↦
          if ltb_ℤ (with_defaults policies cfg).max_backlog (pos 0)
          then err (plain "maximum event backlog must be greater than zero")
          else ok (with_defaults policies cfg)
    ]

-- What happens to a call on its way to Redis and back.
pub data Delivery : Type 0 where
  delivered : Delivery
  lost_before lost_after : Error → Delivery

abbrev pub deliver {ℓ κ} : {A : Type ℓ} {R : Type κ} → Delivery → R → Result A × R → Result A × R
deliver delivered r outcome = outcome
deliver (lost_before e) r outcome = (err e, r)
deliver (lost_after e) r (answer, r') = (err e, r')

-- `fmt.Errorf("apply redis token bucket: %w", err)`
abbrev pub apply_error : Error → Error
apply_error e = wrapped (append "apply redis token bucket: " (error_text e)) e

-- `Allow` from the script's reply on. A length in an error's text stays out.
unfoldable pub decision_of : Policy → Result (List ℤ) → Result Decision
decision_of policy (err e) = err (apply_error e)
decision_of policy (ok (allowed ∷ remaining ∷ reset_at_ms ∷ retry_after_ms ∷ backlog_full ∷ [])) =
    if eqb_ℤ backlog_full (pos 1)
    then err (sentinel event_backlog_full)
    else ok (record {
      allowed = eqb_ℤ allowed (pos 1);
      limit = policy.limit;
      remaining = remaining;
      reset_at = unix_milli reset_at_ms;
      retry_after_ms = retry_after_ms;
    })
decision_of policy (ok _) = err (plain "apply redis token bucket: unexpected result length")

unfoldable pub redis_key : (String → String) → RedisTokenBucketRateLimiter → Key → String
redis_key encode l key =
    append l.key_prefix
      (append ":" (append (encode key.client_id) (append ":" (encode key.resource))))

module _ (N : Float64) (T : LuaText N) (S : Redis) (encode : String → String) where
  -- The arguments of the script.
  unfoldable pub arguments : RedisTokenBucketRateLimiter → Key → Policy → ℤ → Arguments
  arguments l key policy cost =
      let window_ms = milliseconds_rounded_up N policy.window in
      record {
        bucket_key = redis_key encode l key;
        stream_key = l.event_stream;
        capacity = policy.limit;
        window_ms = window_ms;
        cost = cost;
        ttl_ms = mul64 window_ms (pos 2);
        client_id = key.client_id;
        resource = key.resource;
        max_backlog = l.max_backlog;
      }

  abbrev pub apply :
      RedisTokenBucketRateLimiter → S.R → Delivery → Key → Policy → ℤ → Result Decision × S.R
  apply l r d key policy cost =
      let (reply, r') = deliver d r (run_script N T S r (arguments l key policy cost)) in
      (decision_of policy reply, r')

  -- `ctx_err` is `ctx.Err()`.
  unfoldable pub allow :
      RedisTokenBucketRateLimiter → S.R → Delivery → Option Error → Key → ℤ → Result Decision × S.R
  allow l r d (some e) key cost = (err e, r)
  allow l r d none key cost =
      if leb_ℤ cost (pos 0)
      then (err (sentinel invalid_cost), r)
      else elim (lookup key l.policies) [
        | none ↦ (err (sentinel no_policy), r)
        | some policy ↦
            if ltb_ℤ policy.limit cost
            then (err (sentinel cost_exceeds_limit), r)
            else apply l r d key policy cost
      ]
