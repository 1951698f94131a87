-- ===== src/Events/Decode/Fields.antt =====
-- What a message that decodes looks like.
use native.Mathlib.Nat.{mod-eq_of_lt}
use Prim.Native.Nat.{◌%◌}
use rate_limiter_as_a_servic.Clock.{unix_milli}
use rate_limiter_as_a_servic.Limiter.{Result, ok, ok-injective, and_then-ok}
use rate_limiter_as_a_servic.Base.{
  ℤ, pos, floor_mod, String, ◌≡◌, ◌+ℤ◌, ◌-ℤ◌, ◌≤ℤ◌, ◌<ℤ◌, refl, negsuc, arith, Bool-cases, ◌∙◌, ◌+◌,
  leb_ℤ, ap, ◌<◌, eq_of_parts, sym, ◌||◌, ltb_ℤ, inl, inr,
}
use rate_limiter_as_a_servic.Events.Decode.{
  CreateApprovedRequestParams, XMessage, approval_request, checked_request, string_field,
  integer_field, string_keys, Result, ok, max_int32, int32,
}

-- The int32 conversion of a number in range.
pub int32_exact : (n : ℤ) → pos 0 ≤ℤ n → n ≤ℤ max_int32 → int32 n ≡ n
unfolding floor_mod ◌+ℤ◌ ◌-ℤ◌
int32_exact (pos n) lo hi =
    let small : n + 2_147_483_648 < 4_294_967_296 = omega arith in
    let same : (n + 2_147_483_648) % 4_294_967_296 ≡ n + 2_147_483_648 = mod-eq_of_lt small in
    eq_of_parts _ _ (grind (arith, same))
int32_exact (negsuc n) lo hi = absurd (omega arith)

-- A row within the column types, of the message and of the numbers that it holds.
pub record IsRowOf (parse_int : String → Result ℤ) (message : XMessage)
    (row : CreateApprovedRequestParams) : Type 0 where
  pub same_id : row.stream_id ≡ message.id
  pub cost_parsed : integer_field parse_int message "cost" ≡ ok row.cost
  pub remaining_parsed : integer_field parse_int message "remaining" ≡ ok row.remaining
  -- The time is that of the field's number of milliseconds.
  pub approved_at_parsed :
      (ms : ℤ) × (integer_field parse_int message "approved_at_ms" ≡ ok ms)
      × (row.approved_at ≡ unix_milli ms)
  pub same_client : string_field message "client_id" ≡ ok row.client_id
  pub same_resource : string_field message "resource" ≡ ok row.resource
  pub cost_range : (pos 0 <ℤ row.cost) × (row.cost ≤ℤ max_int32)
  pub remaining_range : (pos 0 ≤ℤ row.remaining) × (row.remaining ≤ℤ max_int32)

module _ (parse_int : String → Result ℤ) where
  checked_request_row :
      (message : XMessage) (cost at remaining : ℤ) (client_id resource : String)
      (row : CreateApprovedRequestParams)
      → checked_request parse_int message cost at remaining client_id resource ≡ ok row
      → (pos 0 <ℤ cost)
        × (cost ≤ℤ max_int32)
        × (pos 0 ≤ℤ remaining)
        × (remaining ≤ℤ max_int32)
        × (row ≡ record {
          stream_id = message.id;
          client_id = client_id;
          resource = resource;
          cost = int32 cost;
          approved_at = unix_milli at;
          remaining = int32 remaining;
        })
  unfolding checked_request
  checked_request_row message cost at remaining client_id resource row e =
      elim (Bool-cases (leb_ℤ cost (pos 0) || ltb_ℤ max_int32 cost)) [
        | inl wrong ↦ absurd (ground arith)
        | inr right ↦ elim (Bool-cases (ltb_ℤ remaining (pos 0) || ltb_ℤ max_int32 remaining)) [
          | inl bad ↦ absurd (ground arith)
          | inr good ↦ (
            ground arith,
            ground arith,
            ground arith,
            ground arith,
            sym (ok-injective (rw (right, good) at e)),
          )
        ]
      ]

  -- A message that decodes gives the row of its ID and its fields: the client and the resource, the
  -- instant of `approved_at_ms`, and the cost and what remains, of which neither is cut off by the
  -- conversion to 32 bits; the cost is positive, what remains is not negative, and both are within 32
  -- bits.
  pub approval_request-IsRowOf :
      (message : XMessage) (row : CreateApprovedRequestParams)
      → approval_request parse_int message ≡ ok row
      → IsRowOf parse_int message row
  unfolding approval_request
  approval_request-IsRowOf message row e =
      let (cost, has_cost, e1) = and_then-ok (integer_field parse_int message "cost") _ row e in
      let (at, has_at, e2) =
        and_then-ok (integer_field parse_int message "approved_at_ms") _ row e1 in
      let (remaining, has_remaining, e3) =
        and_then-ok (integer_field parse_int message "remaining") _ row e2 in
      let (client_id, has_client, e4) = and_then-ok (string_field message "client_id") _ row e3 in
      let (resource, has_resource, e5) = and_then-ok (string_field message "resource") _ row e4 in
      let (cost_lo, cost_hi, rem_lo, rem_hi, same) =
        checked_request_row message cost at remaining client_id resource row e5 in
      let cost_same : int32 cost ≡ cost = int32_exact cost (omega arith) cost_hi in
      let rem_same : int32 remaining ≡ remaining = int32_exact remaining rem_lo rem_hi in
      rw same (record {
        same_id = refl;
        cost_parsed = has_cost ∙ ap ok (sym cost_same);
        remaining_parsed = has_remaining ∙ ap ok (sym rem_same);
        approved_at_parsed = (at, has_at, refl);
        same_client = has_client;
        same_resource = has_resource;
        cost_range = rw cost_same (cost_lo, cost_hi);
        remaining_range = rw rem_same (rem_lo, rem_hi);
      })
