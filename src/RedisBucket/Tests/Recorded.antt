-- ===== src/RedisBucket/Tests/Recorded.antt =====
-- The theorems on buckets, keys and rows at concrete inputs.
use rate_limiter_as_a_servic.RedisBucket.Memory.Unary.{parse_unary, reads_unary}
use rate_limiter_as_a_servic.RedisBucket.Recorded.Policies.{lookup-AllRecordable}
use Prim.Native.Char.{code}
use Prim.Native.String.append.{cons as append_cons}
use Prim.Native.String.{◌++◌ as append}
use rate_limiter_as_a_servic.Limiter.{
  Key, Decision, Policy, Result, ok, key_eq, key_beq, key_beq_iff,
}
use rate_limiter_as_a_servic.Floats.Whole.{whole_numbers}
use rate_limiter_as_a_servic.RedisBucket.Server.{Fields}
use rate_limiter_as_a_servic.RedisBucket.Memory.{Memory, in_memory, in_unary}
use rate_limiter_as_a_servic.RedisBucket.Script
use rate_limiter_as_a_servic.RedisBucket.Script.{
  run_script, decided, written, event, now_ms, stored_tokens, refilled, tokens_left, reset_at_ms,
}
use rate_limiter_as_a_servic.TokenBucket.{milliseconds_rounded_up}
use rate_limiter_as_a_servic.TokenBucket.Refill.{Within}
use rate_limiter_as_a_servic.RedisBucket.Keys.{redis_key_distinct, head}
use rate_limiter_as_a_servic.RedisBucket.Encoding.{in_marks, in_marks-IsEncoding}
use rate_limiter_as_a_servic.RedisBucket.Limiter.{
  redis_key, allow, delivered, decision_of, arguments,
}
use rate_limiter_as_a_servic.RedisBucket.Limiter.Buckets.{Reach, clear, called, held, held-Within}
use rate_limiter_as_a_servic.RedisBucket.Recorded.Approved.{
  IsRecordable, row_of, allow-approval_request,
}
use rate_limiter_as_a_servic.RedisBucket.Tests.{client, limiter, six_a_minute, empty, four}
use rate_limiter_as_a_servic.Events.Decode.{approval_request}
use text.Mathlib.Text.{◌==◌ as str_eq}
use text.Mathlib.TextEquality.{eq_iff}
use rate_limiter_as_a_servic.Base.{
  ℤ, pos, ℕ, some, none, ◌≡◌, ◌≢◌, false, Bool-cases, inl, inr, ap, sym, ◌∙◌, refl, arith, lookup,
  ◌++◌, ◌∷◌, [], ◌+ℤ◌, ◌-ℤ◌, ◌*ℤ◌, quot, mul64, wrap64, floor_mod, insert, true,
}

-- No bucket's key begins as the stream's does.
apart_marks : (key : Key) → str_eq (redis_key in_marks limiter key) "events" ≡ false
unfolding redis_key
apart_marks key = elim (Bool-cases (str_eq (redis_key in_marks limiter key) "events")) [
  | inl same ↦
      let rest =
        append ":" (append (in_marks key.client_id) (append ":" (in_marks key.resource))) in
      let first : ◌≡◌ {A = ℕ} 114 101 =
        ap (λ t. code (head "x" t))
          (sym (append_cons "r" "ate_limit" rest) ∙ (eq_iff _ "events").0 same) in
      absurd (omega arith)
  | inr differ ↦ differ
]

client-IsRecordable : IsRecordable client six_a_minute
client-IsRecordable = record {
  storable = record {
    valid = omega arith;
    window_ms = omega arith;
    window_word = omega arith;
    limit_text = omega arith;
  };
  limit_word = omega arith;
  has_client = refl;
  has_resource = refl;
}

known-IsRecordable :
    (key : Key) (p : Policy) → lookup key limiter.policies ≡ some p → IsRecordable key p
known-IsRecordable key p known =
    lookup-AllRecordable limiter.policies key p (client-IsRecordable, tt) known

abbrev ask : Memory → ℤ → Result Decision × Memory
ask m cost = allow whole_numbers in_unary in_memory in_marks limiter m delivered none client cost

abbrev after_four : Memory
after_four = (ask empty (pos 4)).1

abbrev other : Key
other = record { client_id = "client"; resource = "a:openai" }

empty_of : (key : Key) → in_memory.hmget empty (redis_key in_marks limiter key) ≡ (none, none)
unfolding lookup
empty_of key = refl

known_client : lookup client limiter.policies ≡ some six_a_minute
unfolding lookup key_beq
known_client = refl

client_not_other : client ≢ other
unfolding key_beq
client_not_other same = let wrong : false ≡ true = (key_beq_iff client other).1 same in cc

reached : Reach whole_numbers in_unary in_memory in_marks limiter after_four
unfolding lookup
reached = called (clear {r = empty} (λ key. refl)) delivered none client (pos 4)

four_answer : (ask empty (pos 4)).0 ≡ ok four
unfolding allow run_script decided decision_of arguments redis_key written event now_ms
    stored_tokens refilled tokens_left Script.retry_after_ms reset_at_ms lookup insert key_beq
    milliseconds_rounded_up ◌+ℤ◌ ◌-ℤ◌ ◌*ℤ◌ quot mul64 wrap64 floor_mod
four_answer = refl

held-after_four :
    held whole_numbers in_unary in_memory in_marks limiter after_four client ≡ some (pos 2)
unfolding allow run_script decided decision_of arguments redis_key written event now_ms
    stored_tokens refilled tokens_left Script.retry_after_ms reset_at_ms lookup insert key_beq
    milliseconds_rounded_up ◌+ℤ◌ ◌-ℤ◌ ◌*ℤ◌ quot mul64 wrap64 floor_mod
held-after_four = refl

allow-approval_request_example :
    (f : Fields) × (in_memory.entries after_four "events"
      ≡ in_memory.entries empty "events" ++ f ∷ [])
    × (approval_request parse_unary (record { id = "1-0"; values = f })
        ≡ ok (
            row_of whole_numbers in_unary in_memory in_marks parse_unary limiter empty "1-0" client
              (pos 4)
              four))
allow-approval_request_example =
    allow-approval_request whole_numbers in_unary in_memory in_marks parse_unary limiter reads_unary
      in_marks-IsEncoding apart_marks known-IsRecordable empty delivered none client (pos 4) four
      "1-0" (clear (λ key. empty_of key)) (omega arith) four_answer refl

held-Within_example : Within whole_numbers (pos 6) (pos 2)
held-Within_example =
    held-Within whole_numbers in_unary in_memory in_marks limiter in_marks-IsEncoding apart_marks
      (λ key p known. (known-IsRecordable key p known).storable) after_four client six_a_minute
      (pos 2) reached known_client held-after_four

redis_key_distinct_example : redis_key in_marks limiter client ≢ redis_key in_marks limiter other
redis_key_distinct_example =
    redis_key_distinct in_marks limiter client other in_marks-IsEncoding client_not_other
