-- ===== src/TokenBucket.antt =====
-- internal/ratelimiter/token-bucket.go: tokens that refill with time, for each key. The clock is the
-- argument `now` of each call; the mutex makes a call of `Allow` one step. The numbers are the doubles
-- of a `Float64`.
mod Burst
pub mod Refill
mod Exact
mod Conserved
mod Quota
pub mod Reference
mod Follows
mod Tests
use rate_limiter_as_a_servic.History.{Request}
use rate_limiter_as_a_servic.Clock.{Time, Duration, millisecond, sub}
use rate_limiter_as_a_servic.Floats.{Float64}
use rate_limiter_as_a_servic.Limiter.{
  Key, key_eq, Policy, Decision, Error, Result, ok, err, sentinel, plain, invalid_cost, no_policy,
  cost_exceeds_limit, validate_policies,
}
use rate_limiter_as_a_servic.Base.{
  ℤ, pos, Dict, Option, [], Bool, some, lookup, if◌then◌else◌, false, leb_ℤ, none, ◌+ℤ◌, ltb_ℤ,
  max_ℤ, insert, true,
}

unfoldable pub validate_token_bucket_policies : Dict Key Policy → Option Error
validate_token_bucket_policies = validate_policies

pub record Bucket (F : Type 0) : Type 0 where
  pub tokens : F
  pub last_refill : Time

pub record TokenBucketRateLimiter (F : Type 0) : Type 0 where
  pub policies : Dict Key Policy
  pub buckets : Dict Key (Bucket F)

module _ (N : Float64) where
  open N use {F, of_int, to_int, add, subtract, multiply, divide, minimum, lt, floor, ceil}

  -- No bucket yet.
  abbrev pub fresh : Dict Key Policy → TokenBucketRateLimiter F
  fresh policies = record { policies = policies; buckets = [] }

  -- `has_clock` tells that `now` is not nil.
  unfoldable pub new_token_bucket_rate_limiter :
      Dict Key Policy → Bool → Result (TokenBucketRateLimiter F)
  new_token_bucket_rate_limiter policies has_clock =
      if has_clock
      then elim (validate_token_bucket_policies policies) [
        | some e ↦ err e
        | none ↦ ok (fresh policies)
      ]
      else err (plain "clock is required")

  unfoldable pub duration_for_tokens : Policy → F → Duration
  duration_for_tokens policy tokens =
      to_int (ceil (divide (multiply tokens (of_int policy.window)) (of_int policy.limit)))

  unfoldable pub whole_tokens : F → ℤ
  whole_tokens tokens = to_int (floor tokens)

  unfoldable pub milliseconds_rounded_up : Duration → ℤ
  milliseconds_rounded_up duration = to_int (ceil (divide (of_int duration) (of_int millisecond)))

  -- What the elapsed time adds, up to the limit.
  unfoldable pub refill : Policy → F → Duration → F
  refill policy tokens elapsed =
      minimum (of_int policy.limit) (
        add tokens
          (divide (multiply (of_int elapsed) (of_int policy.limit)) (of_int policy.window)))

  -- `refilledBucket`, from the bucket that is found on.
  unfoldable pub refilled_from : Option (Bucket F) → Policy → Time → Bucket F
  refilled_from none policy now = record { tokens = of_int policy.limit; last_refill = now }
  refilled_from (some bucket) policy now =
      let elapsed = sub now bucket.last_refill in
      if leb_ℤ elapsed (pos 0)
      then bucket
      else record { tokens = refill policy bucket.tokens elapsed; last_refill = now }

  unfoldable pub refilled_bucket : TokenBucketRateLimiter F → Key → Policy → Time → Bucket F
  refilled_bucket l key policy now = refilled_from (lookup key l.buckets) policy now

  -- The part of `Allow` under the mutex.
  unfoldable pub decide :
      TokenBucketRateLimiter F
      → Key
      → Policy
      → Time
      → ℤ
      → Result Decision × TokenBucketRateLimiter F
  decide l key policy now cost =
      let bucket = refilled_bucket l key policy now in
      if lt bucket.tokens (of_int cost)
      then (
        ok (record {
          allowed = false;
          limit = policy.limit;
          remaining = whole_tokens bucket.tokens;
          reset_at =
              now +ℤ duration_for_tokens policy (subtract (of_int policy.limit) bucket.tokens);
          retry_after_ms = max_ℤ (pos 1) (
              milliseconds_rounded_up
                (duration_for_tokens policy (subtract (of_int cost) bucket.tokens)));
        }),
        record l { buckets = insert key bucket l.buckets },
      )
      else let tokens = subtract bucket.tokens (of_int cost) in
        (
          ok (record {
            allowed = true;
            limit = policy.limit;
            remaining = whole_tokens tokens;
            reset_at = now +ℤ duration_for_tokens policy (subtract (of_int policy.limit) tokens);
            retry_after_ms = pos 0;
          }),
          record l {
            buckets =
                insert key (record { tokens = tokens; last_refill = bucket.last_refill }) l.buckets;
          },
        )

  -- `ctx_err` is `ctx.Err()`.
  unfoldable pub allow :
      TokenBucketRateLimiter F
      → Option Error
      → Time
      → Key
      → ℤ
      → Result Decision × TokenBucketRateLimiter F
  allow l (some e) now key cost = (err e, l)
  allow l none now key cost =
      if leb_ℤ cost (pos 0)
      then (err (sentinel invalid_cost), l)
      else elim (lookup key l.policies) [
        | none ↦ (err (sentinel no_policy), l)
        | some policy ↦
            if ltb_ℤ policy.limit cost
            then (err (sentinel cost_exceeds_limit), l)
            else decide l key policy now cost
      ]

  abbrev pub step : TokenBucketRateLimiter F → Request → Result Decision × TokenBucketRateLimiter F
  step l r = allow l r.ctx_err r.at r.key r.cost
