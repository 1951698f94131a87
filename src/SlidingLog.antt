-- ===== src/SlidingLog.antt =====
-- internal/ratelimiter/sliding-log.go: the approved requests of the last window, oldest first, for
-- each key. The clock is the argument `now` of each call; the mutex makes a call of `Allow` one step.
mod Accounts
mod Exact
mod Frame
mod Loops
mod New
mod Quota
mod Requests
mod Retry
mod Tests
use rate_limiter_as_a_servic.History.{Request}
use rate_limiter_as_a_servic.Limiter.{
  Key, Policy, Error, Result, validate_policies, Decision, key_eq, err, ok, sentinel, plain,
  invalid_cost, no_policy,
}
use rate_limiter_as_a_servic.Clock.{Time, after, milliseconds, sub}
use rate_limiter_as_a_servic.Base.{
  ℤ, pos, List, Dict, Option, [], Bool, ◌∷◌, lookup, ◌+ℤ◌, sub64, if◌then◌else◌, some, leb_ℤ, ltb_ℤ,
  none, add64, false, max_ℤ, insert, true, ◌++◌,
}

pub record RequestEntry : Type 0 where
  pub at : Time
  pub cost : ℤ

pub record SlidingLog : Type 0 where
  pub requests : List RequestEntry
  pub used : ℤ

pub record SlidingLogRateLimiter : Type 0 where
  pub policies : Dict Key Policy
  pub logs : Dict Key SlidingLog

unfoldable pub validate_sliding_log_policies : Dict Key Policy → Option Error
validate_sliding_log_policies = validate_policies

-- No request yet.
abbrev pub fresh : Dict Key Policy → SlidingLogRateLimiter
fresh policies = record { policies = policies; logs = [] }

-- `has_clock` tells that `now` is not nil.
unfoldable pub new_sliding_log_rate_limiter : Dict Key Policy → Bool → Result SlidingLogRateLimiter
new_sliding_log_rate_limiter policies has_clock =
    if has_clock
    then elim (validate_sliding_log_policies policies) [
      | some e ↦ err e
      | none ↦ ok (fresh policies)
    ]
    else err (plain "clock is required")

-- A missing key reads as the zero value.
abbrev pub log_or_zero : Option SlidingLog → SlidingLog
log_or_zero none = record { requests = []; used = pos 0 }
log_or_zero (some log) = log

-- The loop of `activeLog`: what is left of the list from `firstActive` on, and of `log.used`.
unfoldable pub drop_expired : Time → ℤ → List RequestEntry → SlidingLog
drop_expired cutoff used [] = record { requests = []; used = used }
drop_expired cutoff used (e ∷ rest) =
    if after e.at cutoff
    then record { requests = e ∷ rest; used = used }
    else drop_expired cutoff (sub64 used e.cost) rest

unfoldable pub active_log : SlidingLogRateLimiter → Key → Policy → Time → SlidingLog
active_log l key policy now =
    let log = log_or_zero (lookup key l.logs) in
    drop_expired (now +ℤ sub64 (pos 0) policy.window) log.used log.requests

-- The loop of `nextAvailability`.
unfoldable pub release_from : ℤ → ℤ → Policy → Time → List RequestEntry → Time
release_from released required policy now [] = now +ℤ policy.window
release_from released required policy now (e ∷ rest) =
    if leb_ℤ required (add64 released e.cost)
    then e.at +ℤ policy.window
    else release_from (add64 released e.cost) required policy now rest

unfoldable pub next_availability : SlidingLog → Policy → ℤ → Time → Time
next_availability log policy cost now =
    release_from (pos 0) (sub64 cost (sub64 policy.limit log.used)) policy now log.requests

-- `log.requests[0].at` once `entry` stands at the end.
abbrev pub oldest : List RequestEntry → RequestEntry → Time
oldest [] entry = entry.at
oldest (e ∷ _) entry = e.at

-- The part of `Allow` under the mutex.
unfoldable pub decide :
    SlidingLogRateLimiter → Key → Policy → Time → ℤ → Result Decision × SlidingLogRateLimiter
decide l key policy now cost =
    let log = active_log l key policy now in
    let remaining = sub64 policy.limit log.used in
    let reset_at = next_availability log policy cost now in
    if ltb_ℤ remaining cost
    then (
      ok (record {
        allowed = false;
        limit = policy.limit;
        remaining = remaining;
        reset_at = reset_at;
        retry_after_ms = max_ℤ (pos 1) (milliseconds (sub reset_at now));
      }),
      record l { logs = insert key log l.logs },
    )
    else let entry : RequestEntry = record { at = now; cost = cost } in
      let used = add64 log.used cost in
      (
        ok (record {
          allowed = true;
          limit = policy.limit;
          remaining = sub64 policy.limit used;
          reset_at = oldest log.requests entry +ℤ policy.window;
          retry_after_ms = pos 0;
        }),
        record l {
          logs =
              insert key (record { requests = log.requests ++ entry ∷ []; used = used })
                (insert key log l.logs);
        },
      )

-- `ctx_err` is `ctx.Err()`.
unfoldable pub allow :
    SlidingLogRateLimiter → Option Error → Time → Key → ℤ → Result Decision × SlidingLogRateLimiter
allow l (some e) now key cost = (err e, l)
allow l none now key cost =
    if leb_ℤ cost (pos 0) then (err (sentinel invalid_cost), l) else elim (lookup key l.policies) [
      | none ↦ (err (sentinel no_policy), l)
      | some policy ↦ decide l key policy now cost
    ]

abbrev pub step : SlidingLogRateLimiter → Request → Result Decision × SlidingLogRateLimiter
step l r = allow l r.ctx_err r.at r.key r.cost
