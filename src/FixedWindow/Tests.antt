-- ===== src/FixedWindow/Tests.antt =====
-- Tests of the fixed-window limiter, and its theorems at concrete inputs.
use rate_limiter_as_a_servic.FixedWindow.Retry.{allowed_at_reset}
use rate_limiter_as_a_servic.FixedWindow.Exact.{Fits}
use rate_limiter_as_a_servic.FixedWindow.Quota.{spent-le-limit, step-answer}
use rate_limiter_as_a_servic.FixedWindow.Accounts.{in_window, Late}
use rate_limiter_as_a_servic.FixedWindow.{
  allow, decide, step, window_for, fresh, FixedWindowRateLimiter, Decision, ok,
}
use rate_limiter_as_a_servic.Clock.{minute, truncate, sub, milliseconds}
use rate_limiter_as_a_servic.History.{Log, exec, Ordered, spent, Request, is_allowed}
use rate_limiter_as_a_servic.Limiter.{Key, Policy, IsValid, key_beq, key_eq, Decision, ok}
use rate_limiter_as_a_servic.Base.{
  pos, Dict, ℕ, List, lookup, ◌∷◌, arith, Bool, [], ◌*◌, ◌≡◌, none, some, insert, ◌≤ℤ◌, refl,
  floor_mod, quot, add64, sub64, ◌+ℤ◌, ◌-ℤ◌, true, false, ◌*ℤ◌, ◌↔◌,
}

abbrev client : Key
client = record { client_id = "client-a"; resource = "openai" }

abbrev three_a_minute : Policy
three_a_minute = record { limit = pos 3; window = minute }

abbrev table : Dict Key Policy
table = (client, three_a_minute) ∷ []

three_a_minute-IsValid : IsValid three_a_minute
three_a_minute-IsValid = omega arith

-- 200 milliseconds around the boundary at one minute, newest first.
abbrev ask : ℕ → Request
ask ms = record { at = pos (ms * 1_000_000); ctx_err = none; key = client; cost = pos 1 }

abbrev burst : List Request
burst = ask 60_100 ∷ ask 60_000 ∷ ask 59_999 ∷ ask 59_950 ∷ ask 59_900 ∷ ask 59_900 ∷ []

abbrev answers : Log → List Bool
answers [] = []
answers ((r, answer) ∷ log) = is_allowed answer ∷ answers log

-- The fourth request is denied, and the next aligned window starts afresh.
burst-answers :
    answers (exec step (fresh table) burst).1 ≡ true ∷ true ∷ false ∷ true ∷ true ∷ true ∷ []
unfolding exec allow decide window_for lookup insert key_beq truncate floor_mod sub milliseconds
    quot add64 sub64 ◌+ℤ◌ ◌-ℤ◌
burst-answers = refl

burst-Ordered : Ordered (pos 60_200_000_000) burst
burst-Ordered = omega arith

known : lookup client table ≡ some three_a_minute
unfolding lookup key_beq
known = refl

spent-le-limit_example :
    spent client (in_window three_a_minute (pos 0)) (exec step (fresh table) burst).1 ≤ℤ pos 3
spent-le-limit_example =
    spent-le-limit client three_a_minute (pos 0) (pos 60_200_000_000) table burst
      three_a_minute-IsValid known burst-Ordered

-- Three requests have used the window up when a fourth comes at 59.9995 seconds.
abbrev spent_up : FixedWindowRateLimiter
spent_up = record {
  policies = table;
  windows = (client, record { start = pos 0; used = pos 3 }) ∷ [];
}

spent_up-Fits : Fits three_a_minute (lookup client spent_up.windows)
unfolding lookup key_beq
spent_up-Fits = omega arith

spent_up-Late : Late three_a_minute (pos 59_998_500_000) (lookup client spent_up.windows)
unfolding lookup key_beq truncate floor_mod ◌-ℤ◌
spent_up-Late = omega arith

step-answer_example :
    (allow (exec step (fresh table) []).0 none (pos 7) client (pos 3)).0
    ≡ ok (record {
      allowed = true;
      limit = pos 3;
      remaining = pos 0;
      reset_at = pos 60_000_000_000;
      retry_after_ms = pos 0;
    })
unfolding exec spent truncate floor_mod ◌-ℤ◌ ◌+ℤ◌
step-answer_example =
    step-answer client three_a_minute (pos 7) (pos 3) table [] three_a_minute-IsValid known tt
      (omega arith)

denied_now : Decision
denied_now = record {
  allowed = false;
  limit = pos 3;
  remaining = pos 0;
  reset_at = pos 60_000_000_000;
  retry_after_ms = pos 1;
}

allowed_at_reset_example :
    (is_allowed
        (allow
          (allow spent_up none (pos 59_998_500_000) client (pos 3)).1
          none
          (pos 60_000_000_000)
          client
          (pos 3)).0
      ≡ true)
    ↔ (denied_now.reset_at ≤ℤ pos 60_000_000_000)
unfolding denied_now allow decide window_for lookup key_beq truncate floor_mod sub milliseconds quot
    sub64 ◌+ℤ◌ ◌-ℤ◌ ◌*ℤ◌
allowed_at_reset_example =
    allowed_at_reset spent_up client three_a_minute (pos 59_998_500_000) (pos 60_000_000_000)
      (pos 3) denied_now three_a_minute-IsValid known spent_up-Fits spent_up-Late (omega arith)
      (omega arith) (omega arith) refl refl
