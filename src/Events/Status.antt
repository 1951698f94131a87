-- ===== src/Events/Status.antt =====
-- internal/events/status.go and `EnsureGroup` of internal/events/processor.go. The answers of Redis
-- and of PostgreSQL are arguments.
pub mod Groups
use rate_limiter_as_a_servic.Clock.{Time, zero_time, unix_milli}
use rate_limiter_as_a_servic.Limiter.{
  Result, Error, ok, err, plain, error_text, errors_is, redis_nil,
}
use rate_limiter_as_a_servic.Base.{
  ℤ, Bool, String, List, [], ◌∷◌, Option, none, some, not, ◌||◌, if◌then◌else◌,
}
use rate_limiter_as_a_servic.Events.Decode.{XMessage}
use rate_limiter_as_a_servic.Events.Processor.{because}
use Prim.Native.String.{◌++◌ as append}

-- `strings.HasPrefix`, `strings.Cut` (what is before, what is after, and whether the separator is
-- there), the text of `%q`, and `strconv.ParseInt` for base 10 and 64 bits.
pub record Texts : Type 0 where
  pub has_prefix : String → String → Bool
  pub cut : String → String → String × String × Bool
  pub quote : String → String
  pub parse_int : String → Result ℤ

pub record Status : Type 0 where
  pub stream_length : ℤ
  pub pending_count : ℤ
  pub oldest_event : Time

-- The answers of XLEN, XPENDING and XRANGE in the pipeline.
pub record Replies : Type 0 where
  pub length_value : ℤ
  pub pending_value : ℤ
  pub oldest_value : List XMessage

unfoldable pub is_busy_group : Texts → Error → Bool
is_busy_group texts e = texts.has_prefix (error_text e) "BUSYGROUP"

-- `created` is the answer of XGROUP CREATE.
unfoldable pub ensure_group : Texts → Option Error → Option Error
ensure_group texts none = none
ensure_group texts (some e) =
    if errors_is e redis_nil || is_busy_group texts e
    then none
    else some (because "create approval consumer group" e)

-- The answers of the two pings; the second is not sent if the first fails.
unfoldable pub ready : Option Error → Option Error → Option Error
ready (some e) pool_ping = some (because "ping Redis" e)
ready none (some e) = some (because "ping PostgreSQL" e)
ready none none = none

abbrev pub invalid_id : Texts → String → String
invalid_id texts id = append "approval event has invalid stream ID " (texts.quote id)

-- The instant of an entry's ID.
unfoldable pub instant_of : Texts → String → Result Time
instant_of texts id =
    let (milliseconds, _, found) = texts.cut id "-" in
    if not found then err (plain (invalid_id texts id)) else elim (texts.parse_int milliseconds) [
      | ok timestamp ↦ ok (unix_milli timestamp)
      | err e ↦ err (because (invalid_id texts id) e)
    ]

unfoldable pub status : Texts → Result Replies → Result Status
status texts (err e) = err (because "read approval event status" e)
status texts (ok replies) =
    let read : Status = record {
      stream_length = replies.length_value;
      pending_count = replies.pending_value;
      oldest_event = zero_time;
    } in
    elim replies.oldest_value [
      | [] ↦ ok read
      | (◌∷◌ entry _) ↦ elim (instant_of texts entry.id) [
        | ok instant ↦ ok (record read { oldest_event = instant })
        | err e ↦ err e
      ]
    ]
