-- ===== src/SlidingLog/Frame.antt =====
-- What a call of the sliding-log limiter leaves alone.
use rate_limiter_as_a_servic.Base.{◌≡◌, false, arith, lookup, lookup-insert}
use rate_limiter_as_a_servic.Limiter.{Key, key_eq, key_beq}
use rate_limiter_as_a_servic.History.{Request}
use rate_limiter_as_a_servic.SlidingLog.{SlidingLogRateLimiter, decide, allow, step}

module _ (l : SlidingLogRateLimiter) where
  pub step-policies : (r : Request) → (step l r).1.policies ≡ l.policies
  unfolding allow decide
  step-policies r = ground arith

  -- Another key's log stays as it is.
  pub step-logs_other :
      (r : Request) (key : Key)
      → key_beq key r.key ≡ false
      → lookup key (step l r).1.logs ≡ lookup key l.logs
  unfolding allow decide
  step-logs_other r key other = grind (arith, lookup-insert)
