-- ===== src/Events/Tests.antt =====
-- Tests of the event processor, and its theorems with a database and a stream that are lists.
use rate_limiter_as_a_servic.Limiter.{Error}
use rate_limiter_as_a_servic.Base.{some}
use rate_limiter_as_a_servic.Events.Processor.Undecodable.{persist_messages-undecodable}
use rate_limiter_as_a_servic.Events.Memory.{parse_int, tables, stream, approved}
use rate_limiter_as_a_servic.Clock.{unix_milli}
use rate_limiter_as_a_servic.Limiter.{Error}
use rate_limiter_as_a_servic.Base.{
  pos, String, List, ◌∷◌, lookup, ℕ, [], ◌≡◌, floor_mod, Option, inl, refl, ◌+ℤ◌, ◌-ℤ◌, ◌*ℤ◌,
}
use rate_limiter_as_a_servic.Events.Decode.{
  CreateApprovedRequestParams, XMessage, approval_request, string_field, integer_field,
  checked_request, string_keys,
}
use rate_limiter_as_a_servic.Events.Decode.Fields.{IsRowOf, approval_request-IsRowOf}
use rate_limiter_as_a_servic.Events.Processor.{
  consume_new, persist_messages, requests_of, insert_all,
}
use rate_limiter_as_a_servic.Events.Processor.Stored.{persist_messages-stored}
use rate_limiter_as_a_servic.Events.Processor.Durable.{IsSafe, Happens, event_never_lost}

abbrev row : CreateApprovedRequestParams
row = record {
  stream_id = "1790000000000-0";
  client_id = "client-a";
  resource = "openai";
  cost = pos 2;
  approved_at = unix_milli (pos 1_790_000_000_000);
  remaining = pos 98;
}

approval_request-IsRowOf_example : IsRowOf parse_int approved row
unfolding approval_request string_field integer_field checked_request lookup floor_mod ◌+ℤ◌ ◌-ℤ◌
    ◌*ℤ◌
approval_request-IsRowOf_example = approval_request-IsRowOf parse_int approved row refl

abbrev after : (ℕ × Option Error) × List String × List XMessage
after = consume_new parse_int tables stream [] (approved ∷ [])

event_never_lost_example : IsSafe parse_int tables stream "1790000000000-0" after.1 after.2
event_never_lost_example =
    event_never_lost parse_int tables stream [] (approved ∷ []) after.1 after.2 "1790000000000-0"
      (Happens.consume [] (approved ∷ []) Happens.idle) (inl refl)

abbrev stored : (ℕ × Option Error) × List String × List XMessage
stored = persist_messages parse_int tables stream [] (approved ∷ []) (approved ∷ [])

persist_messages-stored_example : (stored.0.0 ≡ 1) × tables.holds stored.1 "1790000000000-0"
unfolding persist_messages requests_of insert_all approval_request string_field integer_field
    checked_request lookup floor_mod ◌+ℤ◌ ◌-ℤ◌ ◌*ℤ◌
persist_messages-stored_example =
    persist_messages-stored parse_int tables stream [] (approved ∷ []) (approved ∷ [])
      "1790000000000-0" refl refl

-- A cost that is no number.
abbrev broken : XMessage
broken = record approved { values = ("cost", "many") ∷ approved.values }

persist_messages-undecodable_example :
    (e : Error) × (persist_messages parse_int tables stream []
        (approved ∷ broken ∷ [])
        (approved ∷ broken ∷ [])
      ≡ ((0, some e), [], approved ∷ broken ∷ []))
unfolding approval_request string_field integer_field lookup
persist_messages-undecodable_example =
    persist_messages-undecodable parse_int tables stream [] (approved ∷ broken ∷ []) (approved ∷ [])
      [] broken _ refl
