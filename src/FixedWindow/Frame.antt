-- ===== src/FixedWindow/Frame.antt =====
-- What a call of the fixed-window limiter leaves alone.
use rate_limiter_as_a_servic.Base.{◌≡◌, false, arith, lookup, lookup-insert}
use rate_limiter_as_a_servic.Limiter.{Key, key_eq, key_beq}
use rate_limiter_as_a_servic.History.{Request, is_allowed}
use rate_limiter_as_a_servic.FixedWindow.{FixedWindowRateLimiter, decide, allow, step}

module _ (l : FixedWindowRateLimiter) where
  pub step-policies : (r : Request) → (step l r).1.policies ≡ l.policies
  unfolding allow decide
  step-policies r = ground arith

  -- Another key's window stays as it is.
  pub step-windows_other :
      (r : Request) (key : Key)
      → key_beq key r.key ≡ false
      → lookup key (step l r).1.windows ≡ lookup key l.windows
  unfolding allow decide
  step-windows_other r key other = grind (arith, lookup-insert)

  -- A call that does not allow the request changes nothing.
  pub step_not_allowed : (r : Request) → is_allowed (step l r).0 ≡ false → (step l r).1 ≡ l
  unfolding allow decide
  step_not_allowed r refused = ground arith
