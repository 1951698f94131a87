-- ===== src/RedisBucket/Tests.antt =====
-- Tests of the Redis limiter, and its theorems at concrete inputs, in a Redis of association lists.
mod Recorded
use rate_limiter_as_a_servic.Clock.{minute, unix_milli}
use rate_limiter_as_a_servic.Limiter.{
  Key, Policy, Error, err, sentinel, event_backlog_full, plain, key_beq, key_eq, ok, Result,
  Decision,
}
use rate_limiter_as_a_servic.Floats.Whole.{whole_numbers}
use rate_limiter_as_a_servic.RedisBucket.Memory.{Memory, in_memory, in_unary}
use rate_limiter_as_a_servic.RedisBucket.Script
use rate_limiter_as_a_servic.RedisBucket.Script.{
  run_script, decided, written, event, now_ms, stored_tokens, refilled, tokens_left, reset_at_ms,
}
use rate_limiter_as_a_servic.RedisBucket.Limiter.{
  RedisTokenBucketRateLimiter, lost_after, apply_error, redis_key, allow, Delivery, delivered,
  decision_of, arguments,
}
use rate_limiter_as_a_servic.RedisBucket.Limiter.Approvals.{
  approval_has_event, error_unchanged, denied_without_event, event_now,
}
use rate_limiter_as_a_servic.TokenBucket.{milliseconds_rounded_up}
use text.Mathlib.Text.{◌==◌ as str_eq}
use rate_limiter_as_a_servic.Base.{
  ℤ, pos, String, none, ◌≡◌, [], ◌∷◌, refl, ◌+ℤ◌, ◌-ℤ◌, ◌*ℤ◌, quot, mul64, wrap64, floor_mod,
  lookup, insert, true, false, ◌⊎◌, length, ◌<ℤ◌, ◌++◌, some,
}

abbrev plainly : String → String
plainly s = s

abbrev client : Key
client = record { client_id = "client-a"; resource = "openai" }

abbrev six_a_minute : Policy
six_a_minute = record { limit = pos 6; window = minute }

abbrev limiter : RedisTokenBucketRateLimiter
limiter = record {
  policies = (client, six_a_minute) ∷ [];
  key_prefix = "rate_limit";
  event_stream = "events";
  max_backlog = pos 2;
}

-- Twelve milliseconds after the epoch.
abbrev empty : Memory
empty = record { hashes = []; streams = []; clock = (pos 0, pos 12_000) }

abbrev ask : Memory → Delivery → ℤ → Result Decision × Memory
ask m d cost = allow whole_numbers in_unary in_memory plainly limiter m d none client cost

-- The tokens come back after forty seconds.
abbrev four : Decision
four = record {
  allowed = true;
  limit = pos 6;
  remaining = pos 2;
  reset_at = unix_milli (pos 40_012);
  retry_after_ms = pos 0;
}

-- The entries do not matter here.
abbrev full : Memory
full = record empty { streams = ("events", [] ∷ [] ∷ []) ∷ [] }

apart : str_eq (redis_key plainly limiter client) "events" ≡ false
unfolding redis_key
apart = refl

abbrev after_four : Memory
after_four = (ask empty delivered (pos 4)).1

first_answer : (ask empty delivered (pos 4)).0 ≡ ok four
unfolding allow run_script decided decision_of arguments redis_key written event now_ms
    stored_tokens refilled tokens_left Script.retry_after_ms reset_at_ms lookup insert key_beq
    milliseconds_rounded_up ◌+ℤ◌ ◌-ℤ◌ ◌*ℤ◌ quot mul64 wrap64 floor_mod
first_answer = refl

-- Two tokens are left, less than three.
abbrev three : Decision
three = record {
  allowed = false;
  limit = pos 6;
  remaining = pos 2;
  reset_at = unix_milli (pos 40_012);
  retry_after_ms = pos 10_000;
}

second_answer : (ask after_four delivered (pos 3)).0 ≡ ok three
unfolding allow run_script decided decision_of arguments redis_key written event now_ms
    stored_tokens refilled tokens_left Script.retry_after_ms reset_at_ms lookup insert key_beq
    milliseconds_rounded_up ◌+ℤ◌ ◌-ℤ◌ ◌*ℤ◌ quot mul64 wrap64 floor_mod
second_answer = refl

abbrev broken : Error
broken = plain "connection reset"

lost_answer : (ask empty (lost_after broken) (pos 4)).0 ≡ err (apply_error broken)
unfolding allow run_script decided decision_of arguments redis_key written event now_ms
    stored_tokens refilled tokens_left Script.retry_after_ms reset_at_ms lookup insert key_beq
    milliseconds_rounded_up ◌+ℤ◌ ◌-ℤ◌ ◌*ℤ◌ quot mul64 wrap64 floor_mod
lost_answer = refl

full_answer : (ask full delivered (pos 1)).0 ≡ err (sentinel event_backlog_full)
unfolding allow run_script decided decision_of arguments redis_key written event now_ms
    stored_tokens refilled tokens_left Script.retry_after_ms reset_at_ms lookup insert key_beq
    milliseconds_rounded_up ◌+ℤ◌ ◌-ℤ◌ ◌*ℤ◌ quot mul64 wrap64 floor_mod
full_answer = refl

approval_has_event_example :
    (p : Policy) × (lookup client limiter.policies ≡ some p)
    × (pos (length (in_memory.entries empty "events")) <ℤ pos 2)
    × (in_memory.entries (ask empty delivered (pos 4)).1 "events"
        ≡ in_memory.entries empty "events"
          ++ event_now whole_numbers in_unary in_memory plainly limiter empty client p (pos 4) ∷ [])
approval_has_event_example =
    approval_has_event whole_numbers in_unary in_memory plainly limiter empty delivered none client
      (pos 4) four apart first_answer refl

error_unchanged_example :
    ((ask empty (lost_after broken) (pos 4)).1 ≡ empty)
    ⊎ ((c : Error) × (lost_after broken ≡ lost_after c))
error_unchanged_example =
    error_unchanged whole_numbers in_unary in_memory plainly limiter empty (lost_after broken) none
      client (pos 4) (apply_error broken) lost_answer

denied_without_event_example :
    in_memory.entries (ask after_four delivered (pos 3)).1 "events"
    ≡ in_memory.entries after_four "events"
denied_without_event_example =
    denied_without_event whole_numbers in_unary in_memory plainly limiter after_four delivered none
      client (pos 3) three apart second_answer refl
