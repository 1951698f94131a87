-- ===== src/RedisBucket/Recorded.antt =====
-- From the limiter to the worker: the event that the script writes is one that internal/events decodes.
pub mod Approved
pub mod Policies
use rate_limiter_as_a_servic.Clock.{millisecond, unix_milli}
use rate_limiter_as_a_servic.Limiter.{Policy, Result, ok, key_eq}
use rate_limiter_as_a_servic.Floats.{Float64, max_exact}
use rate_limiter_as_a_servic.TokenBucket.Refill.{Within, IsCountable, whole_tokens-bounds}
use rate_limiter_as_a_servic.TokenBucket.{whole_tokens}
use rate_limiter_as_a_servic.RedisBucket.Server.{Redis, LuaText, max_text}
use rate_limiter_as_a_servic.RedisBucket.Script.{Arguments, event, now_ms}
use rate_limiter_as_a_servic.Events.Decode.{XMessage, approval_request, string_keys, max_int32}
use rate_limiter_as_a_servic.Events.Decode.Accepts.{
  approval_request-ok, integer_field-ok, string_field-ok,
}
use text.Mathlib.Text.{◌==◌ as str_eq}
use rate_limiter_as_a_servic.Base.{
  ℤ, pos, negsuc, String, some, ◌≡◌, false, lookup, ◌≤ℤ◌, ◌<ℤ◌, ap, ◌∙◌, arith, ◌*ℤ◌, ℕ, ◌*◌, ◌/◌,
  ◌≤◌, eq_of_parts, ◌+ℤ◌, quot, refl, int_laws,
}

-- The clock of Redis, up to the year 5138, in milliseconds.
abbrev pub IsClock : ℤ × ℤ → Type 0
IsClock (seconds, microseconds) =
    (pos 0 ≤ℤ seconds)
    × (seconds ≤ℤ pos 99_999_999_998)
    × (pos 0 ≤ℤ microseconds)
    × (microseconds <ℤ pos 1_000_000)

abbrev pub clock_ms : ℤ × ℤ → ℤ
clock_ms (seconds, microseconds) = seconds *ℤ pos 1000 +ℤ quot microseconds 1000

thousands : (s : ℕ) → pos s *ℤ pos 1000 ≡ pos (s * 1000)
unfolding ◌*ℤ◌
thousands s = eq_of_parts _ _ (ground arith)

quot_nonneg : (m : ℤ) → pos 0 ≤ℤ m → pos 0 ≤ℤ quot m 1000
unfolding quot
quot_nonneg (pos m) h = omega arith
quot_nonneg (negsuc m) h = absurd (omega arith)

pub clock_ms-bounds :
    (seconds microseconds : ℤ)
    → IsClock (seconds, microseconds)
    → (pos 0 ≤ℤ seconds *ℤ pos 1000)
      × (seconds *ℤ pos 1000 ≤ℤ max_exact)
      × (pos 0 ≤ℤ clock_ms (seconds, microseconds))
      × (clock_ms (seconds, microseconds) ≤ℤ max_text)
unfolding quot
clock_ms-bounds (pos s) (pos m) (a, b, c, d) =
    let small : m / 1000 ≤ 1000 = omega arith in
    let scaled = thousands s in
    (
      rw scaled (omega arith),
      rw scaled (omega arith),
      rw scaled (omega int_laws),
      rw scaled (omega int_laws),
    )
clock_ms-bounds (pos s) (negsuc m) (a, b, c, d) = absurd (omega arith)
clock_ms-bounds (negsuc s) m (a, b, c, d) = absurd (omega arith)

module _ (N : Float64) (T : LuaText N) (S : Redis) (parse_int : String → Result ℤ) where
  open N use {F, of_int, le, floor, to_int, subtract}

  -- `strconv.ParseInt` reads what Lua's `tostring` writes of an integer.
  abbrev pub Reads : Type 0
  Reads =
      (n : ℤ)
      → pos 0 ≤ℤ n
      → n ≤ℤ max_text
      → (parse_int (T.tostring (of_int n)) ≡ ok n) × (str_eq (T.tostring (of_int n)) "" ≡ false)

  pub now_ms-clock : (r : S.R) → IsClock (S.time r) → now_ms N T S r ≡ of_int (clock_ms (S.time r))
  unfolding now_ms
  now_ms-clock r c =
      let (seconds, microseconds) = S.time r in
      let (nonneg, exact, early, late) = clock_ms-bounds seconds microseconds c in
      let (s0, s1, d, e) = c in
      ap (λ x. N.add x (floor (N.divide (of_int microseconds) (of_int (pos 1000)))))
        (N.multiply_exact seconds (pos 1000) s0 (omega arith) (omega arith) (omega arith) exact)
      ∙ ap (N.add (of_int (seconds *ℤ pos 1000)))
          (N.floor_divide microseconds 1000 d (omega arith) (omega arith))
      ∙ N.add_exact (seconds *ℤ pos 1000) (quot microseconds 1000) nonneg
          (quot_nonneg microseconds d) (omega (arith, late))

  -- The event of a cost and of what is left, at a time.
  pub event_decodes :
      (a : Arguments) (p : Policy) (at : ℤ) (tokens : F) (id : String)
      → Reads
      → IsCountable p
      → p.limit ≤ℤ max_int32
      → Within N p.limit tokens
      → (pos 0 <ℤ a.cost) × (a.cost ≤ℤ p.limit)
      → (pos 0 ≤ℤ at) × (at ≤ℤ max_text)
      → str_eq a.client_id "" ≡ false
      → str_eq a.resource "" ≡ false
      → approval_request parse_int (record { id = id; values = event N T S a (of_int at) tokens })
        ≡ ok (record {
          stream_id = id;
          client_id = a.client_id;
          resource = a.resource;
          cost = a.cost;
          approved_at = unix_milli at;
          remaining = to_int (floor tokens);
        })
  unfolding event lookup whole_tokens
  event_decodes a p at tokens id reads countable small within (lo, hi) (early, late) client
        resource =
      let (least, most) = whole_tokens-bounds N p tokens countable within in
      let left = N.floor_whole p.limit tokens within.0 within.1 countable.limit_exact in
      let message : XMessage = record { id = id; values = event N T S a (of_int at) tokens } in
      let (cost_read, cost_filled) = reads a.cost (omega arith) (omega arith) in
      let (at_read, at_filled) = reads at early late in
      let (left_read, left_filled) = reads (to_int (floor tokens)) least (omega arith) in
      approval_request-ok parse_int message a.cost at (to_int (floor tokens)) a.client_id a.resource
        (integer_field-ok parse_int message "cost" _ a.cost refl cost_filled cost_read)
        (integer_field-ok parse_int message "approved_at_ms" _ at refl at_filled at_read)
        (integer_field-ok parse_int message "remaining" _ _ (ap (λ x. some (T.tostring x)) left)
          left_filled left_read)
        (string_field-ok message "client_id" _ refl client)
        (string_field-ok message "resource" _ refl resource) (lo, omega arith) (least, omega arith)
