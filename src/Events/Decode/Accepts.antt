-- ===== src/Events/Decode/Accepts.antt =====
-- Which messages decode.
use rate_limiter_as_a_servic.Clock.{unix_milli}
use rate_limiter_as_a_servic.Limiter.{Result, ok}
use text.Mathlib.Text.{◌==◌ as str_eq}
use rate_limiter_as_a_servic.Base.{
  ℤ, pos, String, ◌≡◌, ◌≤ℤ◌, ◌<ℤ◌, refl, arith, lookup, some, false, leb_ℤ-false, ltb_ℤ-false,
}
use rate_limiter_as_a_servic.Events.Decode.{
  XMessage, approval_request, checked_request, string_field, integer_field, string_keys, max_int32,
}
use rate_limiter_as_a_servic.Events.Decode.Fields.{int32_exact}

pub string_field-ok :
    (message : XMessage) (field value : String)
    → lookup field message.values ≡ some value
    → str_eq value "" ≡ false
    → string_field message field ≡ ok value
unfolding string_field
string_field-ok message field value there filled = rw (string_field, there, filled) refl

module _ (parse_int : String → Result ℤ) where
  pub integer_field-ok :
      (message : XMessage) (field value : String) (n : ℤ)
      → lookup field message.values ≡ some value
      → str_eq value "" ≡ false
      → parse_int value ≡ ok n
      → integer_field parse_int message field ≡ ok n
  unfolding integer_field
  integer_field-ok message field value n there filled reads =
      rw (integer_field, string_field-ok message field value there filled, reads) refl

  pub approval_request-ok :
      (message : XMessage) (cost at remaining : ℤ) (client_id resource : String)
      → integer_field parse_int message "cost" ≡ ok cost
      → integer_field parse_int message "approved_at_ms" ≡ ok at
      → integer_field parse_int message "remaining" ≡ ok remaining
      → string_field message "client_id" ≡ ok client_id
      → string_field message "resource" ≡ ok resource
      → (pos 0 <ℤ cost) × (cost ≤ℤ max_int32)
      → (pos 0 ≤ℤ remaining) × (remaining ≤ℤ max_int32)
      → approval_request parse_int message
        ≡ ok (record {
          stream_id = message.id;
          client_id = client_id;
          resource = resource;
          cost = cost;
          approved_at = unix_milli at;
          remaining = remaining;
        })
  unfolding approval_request checked_request
  approval_request-ok message cost at remaining client_id resource has_cost has_at has_remaining
        has_client has_resource (cost_lo, cost_hi) (left_lo, left_hi) =
      rw
        (
          has_cost,
          has_at,
          has_remaining,
          has_client,
          has_resource,
          leb_ℤ-false cost (pos 0) cost_lo,
          ltb_ℤ-false max_int32 cost cost_hi,
          ltb_ℤ-false remaining (pos 0) left_lo,
          ltb_ℤ-false max_int32 remaining left_hi,
          int32_exact cost (omega arith) cost_hi,
          int32_exact remaining left_lo left_hi,
        )
        refl
