-- ===== src/SlidingLog/Tests.antt =====
-- Tests of the sliding-log limiter, and its theorems at concrete inputs.
use rate_limiter_as_a_servic.SlidingLog.Retry.{denied_until_reset}
use rate_limiter_as_a_servic.SlidingLog.Quota.{rolling_spent-le-limit, rolling_answer}
use rate_limiter_as_a_servic.SlidingLog.Exact.{Fits}
use rate_limiter_as_a_servic.SlidingLog.Loops.{rolling}
use rate_limiter_as_a_servic.Clock.{minute, sub, milliseconds}
use rate_limiter_as_a_servic.SlidingLog.{
  SlidingLogRateLimiter, allow, decide, step, active_log, fresh, drop_expired, next_availability,
  release_from,
}
use rate_limiter_as_a_servic.History.{Log, exec, Ordered, spent, Request, is_allowed}
use rate_limiter_as_a_servic.Limiter.{Key, Policy, IsValid, Decision, key_beq, ok, key_eq}
use rate_limiter_as_a_servic.Base.{
  pos, Dict, ℕ, List, lookup, arith, Bool, false, true, ◌∷◌, [], ◌*◌, ◌≡◌, ◌+ℤ◌, none, some, ◌≤ℤ◌,
  leb_ℤ, ◌↔◌, ◌-ℤ◌, refl, insert, if◌then◌else◌, quot, add64, sub64,
}

abbrev client : Key
client = record { client_id = "client-a"; resource = "openai" }

abbrev three_a_minute : Policy
three_a_minute = record { limit = pos 3; window = minute }

abbrev table : Dict Key Policy
table = (client, three_a_minute) ∷ []

three_a_minute-IsValid : IsValid three_a_minute
three_a_minute-IsValid = omega arith

abbrev ask : ℕ → Request
ask ms = record { at = pos (ms * 1_000_000); ctx_err = none; key = client; cost = pos 1 }

-- Around the boundary at one minute, newest first.
abbrev burst : List Request
burst = ask 119_951 ∷ ask 60_100 ∷ ask 60_000 ∷ ask 59_999 ∷ ask 59_950 ∷ ask 59_900 ∷ []

abbrev answers : Log → List Bool
answers [] = []
answers ((r, answer) ∷ log) = is_allowed answer ∷ answers log

-- Crossing the aligned boundary brings no fresh capacity.
burst-answers :
    answers (exec step (fresh table) burst).1 ≡ true ∷ false ∷ false ∷ true ∷ true ∷ true ∷ []
unfolding exec allow decide active_log drop_expired next_availability release_from lookup insert
    key_beq sub milliseconds quot add64 sub64 ◌+ℤ◌ ◌-ℤ◌
burst-answers = refl

burst-Ordered : Ordered (pos 119_952_000_000) burst
burst-Ordered = omega arith

known : lookup client table ≡ some three_a_minute
unfolding lookup key_beq
known = refl

rolling_spent-le-limit_example :
    spent client (rolling three_a_minute (pos 60_000_000_000)) (exec step (fresh table) burst).1
    ≤ℤ pos 3
rolling_spent-le-limit_example =
    rolling_spent-le-limit client three_a_minute (pos 60_000_000_000) (pos 119_952_000_000) table
      burst three_a_minute-IsValid known burst-Ordered

rolling_answer_example :
    let (l, log) = exec step (fresh table) burst in
    let drawn = spent client (rolling three_a_minute (pos 119_952_000_000)) log in
    (d : Decision) × ((allow l none (pos 119_952_000_000) client (pos 2)).0 ≡ ok d)
    × (d.allowed ≡ leb_ℤ (drawn +ℤ pos 2) (pos 3))
    × (d.limit ≡ pos 3)
    × (d.remaining ≡ pos 3 -ℤ (if d.allowed then drawn +ℤ pos 2 else drawn))
rolling_answer_example =
    rolling_answer client three_a_minute (pos 119_952_000_000) (pos 2) table burst
      three_a_minute-IsValid known burst-Ordered (omega arith)

-- Three approved requests at 1, 2 and 3 nanoseconds.
abbrev used_up : SlidingLogRateLimiter
used_up = record {
  policies = table;
  logs =
      (
        client,
        record {
          requests =
              record { at = pos 1; cost = pos 1 }
              ∷ record { at = pos 2; cost = pos 1 }
              ∷ record { at = pos 3; cost = pos 1 }
              ∷ [];
          used = pos 3;
        },
      )
      ∷ [];
}

used_up-Fits : Fits three_a_minute (pos 3) (lookup client used_up.logs)
unfolding lookup key_beq ◌+ℤ◌
used_up-Fits = ground arith

-- A cost of two fits once the second request has expired.
denied_two : Decision
denied_two = record {
  allowed = false;
  limit = pos 3;
  remaining = pos 0;
  reset_at = pos 60_000_000_002;
  retry_after_ms = pos 59_999;
}

denied_until_reset_example :
    (is_allowed
        (allow
          (allow used_up none (pos 4) client (pos 2)).1
          none
          (pos 60_000_000_001)
          client
          (pos 2)).0
      ≡ true)
    ↔ (denied_two.reset_at ≤ℤ pos 60_000_000_001)
unfolding denied_two allow decide active_log drop_expired next_availability release_from lookup
    insert key_beq sub milliseconds quot add64 sub64 ◌+ℤ◌ ◌-ℤ◌
denied_until_reset_example =
    denied_until_reset used_up client three_a_minute (pos 3) (pos 4) (pos 60_000_000_001) (pos 2)
      denied_two three_a_minute-IsValid known used_up-Fits (omega arith) (omega arith) (omega arith)
      (omega arith) refl refl
