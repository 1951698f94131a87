-- ===== src/FixedWindow.antt =====
-- internal/ratelimiter/fixed-window.go: a counter for each key and aligned window. The clock is the
-- argument `now` of each call; the mutex makes a call of `Allow` one step.
mod Accounts
mod Exact
mod Frame
mod New
mod Quota
mod Retry
mod Tests
use rate_limiter_as_a_servic.Base.{
  ℤ, pos, ◌+ℤ◌, leb_ℤ, ltb_ℤ, max_ℤ, add64, sub64, Bool, true, false, Option, none, some, [], Dict,
  lookup, insert, if◌then◌else◌,
}
use rate_limiter_as_a_servic.Clock.{Time, zero_time, equal, sub, truncate, milliseconds}
use rate_limiter_as_a_servic.Limiter.{
  Key, key_eq, Policy, Decision, Error, sentinel, plain, invalid_cost, no_policy, Result, ok, err,
  validate_policies,
}
use rate_limiter_as_a_servic.History.{Request}

pub record FixedWindow : Type 0 where
  pub start : Time
  pub used : ℤ

pub record FixedWindowRateLimiter : Type 0 where
  pub policies : Dict Key Policy
  pub windows : Dict Key FixedWindow

unfoldable pub validate_fixed_window_policies : Dict Key Policy → Option Error
validate_fixed_window_policies = validate_policies

-- No window yet.
abbrev pub fresh : Dict Key Policy → FixedWindowRateLimiter
fresh policies = record { policies = policies; windows = [] }

-- `has_clock` tells that `now` is not nil.
unfoldable pub new_fixed_window_rate_limiter :
    Dict Key Policy → Bool → Result FixedWindowRateLimiter
new_fixed_window_rate_limiter policies has_clock =
    if has_clock
    then elim (validate_fixed_window_policies policies) [
      | some e ↦ err e
      | none ↦ ok (fresh policies)
    ]
    else err (plain "clock is required")

-- A missing key reads as the zero value.
abbrev pub window_or_zero : Option FixedWindow → FixedWindow
window_or_zero none = record { start = zero_time; used = pos 0 }
window_or_zero (some w) = w

unfoldable pub window_for : FixedWindowRateLimiter → Key → Policy → Time → FixedWindow
window_for l key policy now =
    let start = truncate now policy.window in
    let window = window_or_zero (lookup key l.windows) in
    if equal window.start start then window else record { start = start; used = pos 0 }

-- The part of `Allow` under the mutex.
unfoldable pub decide :
    FixedWindowRateLimiter → Key → Policy → Time → ℤ → Result Decision × FixedWindowRateLimiter
decide l key policy now cost =
    let window = window_for l key policy now in
    let reset_at = window.start +ℤ policy.window in
    if ltb_ℤ (sub64 policy.limit window.used) cost
    then (
      ok (record {
        allowed = false;
        limit = policy.limit;
        remaining = sub64 policy.limit window.used;
        reset_at = reset_at;
        retry_after_ms = max_ℤ (pos 1) (milliseconds (sub reset_at now));
      }),
      l,
    )
    else let used = add64 window.used cost in
      (
        ok (record {
          allowed = true;
          limit = policy.limit;
          remaining = sub64 policy.limit used;
          reset_at = reset_at;
          retry_after_ms = pos 0;
        }),
        record l { windows = insert key (record { start = window.start; used = used }) l.windows },
      )

-- `ctx_err` is `ctx.Err()`.
unfoldable pub allow :
    FixedWindowRateLimiter
    → Option Error
    → Time
    → Key
    → ℤ
    → Result Decision × FixedWindowRateLimiter
allow l (some e) now key cost = (err e, l)
allow l none now key cost =
    if leb_ℤ cost (pos 0) then (err (sentinel invalid_cost), l) else elim (lookup key l.policies) [
      | none ↦ (err (sentinel no_policy), l)
      | some policy ↦ decide l key policy now cost
    ]

abbrev pub step : FixedWindowRateLimiter → Request → Result Decision × FixedWindowRateLimiter
step l r = allow l r.ctx_err r.at r.key r.cost
