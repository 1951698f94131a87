-- ===== src/Events/Decode.antt =====
-- internal/events/event.go: the row that a stream message stands for. A message's values are the
-- strings that Redis returns. `parse_int` is `strconv.ParseInt` for base 10 and 64 bits.
pub mod Accepts
pub mod Fields
use rate_limiter_as_a_servic.Clock.{Time, millisecond, unix_milli}
use rate_limiter_as_a_servic.Limiter.{Result, Error, ok, plain, err, wrapped, error_text, and_then}
use rate_limiter_as_a_servic.Base.{
  ℤ, pos, Comparable, floor_mod, String, Dict, lookup, ◌+ℤ◌, if◌then◌else◌, ◌-ℤ◌, leb_ℤ, ◌||◌,
  ltb_ℤ, ◌*ℤ◌, none, some,
}
use Prim.Native.String.{◌++◌ as append, String}
use text.Mathlib.Text.{◌==◌ as str_eq}
use text.Mathlib.TextEquality.{eq_iff}

instance abbrev pub string_keys : Comparable String
string_keys = record { same = str_eq; same_iff = eq_iff }

pub record XMessage : Type 0 where
  pub id : String
  pub values : Dict String String

pub record CreateApprovedRequestParams : Type 0 where
  pub stream_id : String
  pub client_id : String
  pub resource : String
  pub cost : ℤ
  pub approved_at : Time
  pub remaining : ℤ

abbrev pub max_int32 : ℤ
max_int32 = pos 2_147_483_647

-- `fmt.Errorf("approval event %s …", message.ID)`
abbrev pub event_error : XMessage → String → Error
event_error message text = plain (append "approval event " (append message.id text))

unfoldable pub string_field : XMessage → String → Result String
string_field message field = elim (lookup field message.values) [
  | none ↦ err (event_error message (append " has no " field))
  | some value ↦
      if str_eq value "" then err (event_error message (append " has no " field)) else ok value
]

-- `int32(n)`
abbrev pub int32 : ℤ → ℤ
int32 n = floor_mod (n +ℤ pos 2_147_483_648) 4_294_967_296 -ℤ pos 2_147_483_648

module _ (parse_int : String → Result ℤ) where
  -- A number that does not parse.
  abbrev pub parsed : XMessage → String → Result ℤ → Result ℤ
  parsed message field (ok n) = ok n
  parsed message field (err e) = err (
      wrapped
        (append "approval event "
          (append message.id (append " has invalid " (append field (append ": " (error_text e))))))
        e)

  unfoldable pub integer_field : XMessage → String → Result ℤ
  integer_field message field =
      and_then (string_field message field) (λ value. parsed message field (parse_int value))

  -- The end of `approvalRequest`, once all fields are read.
  unfoldable pub checked_request :
      XMessage
      → (cost approved_at_ms remaining : ℤ) → (client_id resource : String)
      → Result CreateApprovedRequestParams
  checked_request message cost approved_at_ms remaining client_id resource =
      if leb_ℤ cost (pos 0) || ltb_ℤ max_int32 cost
      then err (event_error message " has out-of-range cost")
      else if ltb_ℤ remaining (pos 0) || ltb_ℤ max_int32 remaining
      then err (event_error message " has out-of-range remaining")
      else ok (record {
        stream_id = message.id;
        client_id = client_id;
        resource = resource;
        cost = int32 cost;
        approved_at = unix_milli approved_at_ms;
        remaining = int32 remaining;
      })

  unfoldable pub approval_request : XMessage → Result CreateApprovedRequestParams
  approval_request message = and_then (integer_field message "cost") (λ cost.
      and_then (integer_field message "approved_at_ms") (λ approved_at_ms.
        and_then (integer_field message "remaining") (λ remaining.
          and_then (string_field message "client_id") (λ client_id.
            and_then (string_field message "resource") (λ resource.
              checked_request message cost approved_at_ms remaining client_id resource)))))
