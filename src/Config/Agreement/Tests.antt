-- ===== src/Config/Agreement/Tests.antt =====
-- What the API and the worker agree on, at a concrete environment.
use rate_limiter_as_a_servic.Clock.{unix_milli}
use rate_limiter_as_a_servic.Limiter.{Key, Decision, ok, key_beq}
use rate_limiter_as_a_servic.Base.{
  pos, true, none, ◌≡◌, ◌≢◌, refl, [], lookup, insert, quot, mul64, wrap64, floor_mod, ◌+ℤ◌, ◌-ℤ◌,
  ◌*ℤ◌,
}
use rate_limiter_as_a_servic.Floats.Whole.{whole_numbers}
use rate_limiter_as_a_servic.TokenBucket.{milliseconds_rounded_up}
use rate_limiter_as_a_servic.RedisBucket.Memory.{Memory, in_memory, in_unary}
use rate_limiter_as_a_servic.RedisBucket.Encoding.{in_marks}
use rate_limiter_as_a_servic.RedisBucket.Script
use rate_limiter_as_a_servic.RedisBucket.Script.{
  run_script, decided, written, event, now_ms, stored_tokens, refilled, tokens_left, reset_at_ms,
}
use rate_limiter_as_a_servic.RedisBucket.Limiter.{
  allow, delivered, decision_of, arguments, redis_key,
}
use rate_limiter_as_a_servic.Worker.Monitor.{backlog_state, backlog_full}
use rate_limiter_as_a_servic.Config.Agreement.{programs_agree}
use rate_limiter_as_a_servic.Config.Agreement.Full.{approved_not_full, backlog_of}
use rate_limiter_as_a_servic.Config.Loads.{
  env, this_process, api, worker, limiter, api_loads, worker_loads,
}

programs_agree_example :
    (limiter.event_stream ≡ "rate_limit:approved_requests") × (limiter.max_backlog ≡ pos 100_000)
programs_agree_example = programs_agree env this_process api worker api_loads worker_loads refl refl

abbrev client : Key
client = record { client_id = "client-a"; resource = "openai" }

-- Twelve milliseconds after the epoch.
abbrev empty : Memory
empty = record { hashes = []; streams = []; clock = (pos 0, pos 12_000) }

abbrev four : Decision
four = record {
  allowed = true;
  limit = pos 100;
  remaining = pos 96;
  reset_at = unix_milli (pos 2_412);
  retry_after_ms = pos 0;
}

four_answer :
    (allow whole_numbers in_unary in_memory in_marks limiter empty delivered none client (pos 4)).0
    ≡ ok four
unfolding allow run_script decided decision_of arguments redis_key written event now_ms
    stored_tokens refilled tokens_left Script.retry_after_ms reset_at_ms lookup insert key_beq
    milliseconds_rounded_up ◌+ℤ◌ ◌-ℤ◌ ◌*ℤ◌ quot mul64 wrap64 floor_mod
four_answer = refl

approved_not_full_example :
    backlog_state (backlog_of worker) (in_memory.xlen empty worker.events.stream) ≢ backlog_full
approved_not_full_example =
    approved_not_full whole_numbers in_unary in_memory in_marks env this_process api worker empty
      delivered none client (pos 4) four api_loads worker_loads refl refl four_answer refl
