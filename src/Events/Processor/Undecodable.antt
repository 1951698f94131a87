-- ===== src/Events/Processor/Undecodable.antt =====
-- One message that the worker cannot decode.
use rate_limiter_as_a_servic.Limiter.{Result, Error, err, Result-cases}
use rate_limiter_as_a_servic.Base.{ℤ, String, List, [], ◌∷◌, ◌++◌, ◌≡◌, some, inl, inr, refl}
use rate_limiter_as_a_servic.Events.Decode.{XMessage, approval_request}
use rate_limiter_as_a_servic.Events.Services.{Database, Streams}
use rate_limiter_as_a_servic.Events.Processor.{requests_of, persist_messages}

module _ (parse_int : String → Result ℤ) (D : Database) (R : Streams) where
  requests_of-err :
      (before after : List XMessage) (message : XMessage) (e : Error)
      → approval_request parse_int message ≡ err e
      → (e' : Error) × (requests_of parse_int D R (before ++ message ∷ after) ≡ err e')
  unfolding requests_of
  requests_of-err [] after message e fails = (e, rw fails refl)
  requests_of-err (first ∷ before) after message e fails =
      let (e', later) = requests_of-err before after message e fails in
      elim (Result-cases (approval_request parse_int first)) [
        | inl (request, decodes) ↦ (e', rw (decodes, later) refl)
        | inr (e'', earlier) ↦ (e'', rw earlier refl)
      ]

  -- A message that does not decode holds back its whole batch: nothing is inserted, acknowledged or
  -- deleted, and the operation reports an error, whichever the other messages of the batch are.
  pub persist_messages-undecodable :
      (db : D.Db) (redis : R.Redis) (before after : List XMessage) (message : XMessage) (e : Error)
      → approval_request parse_int message ≡ err e
      → (e' : Error) × (persist_messages parse_int D R db redis (before ++ message ∷ after)
          ≡ ((0, some e'), db, redis))
  unfolding persist_messages
  persist_messages-undecodable db redis [] after message e fails =
      let (e', held) = requests_of-err [] after message e fails in
      (e', rw (held, persist_messages) refl)
  persist_messages-undecodable db redis (first ∷ before) after message e fails =
      let (e', held) = requests_of-err (first ∷ before) after message e fails in
      (e', rw (held, persist_messages) refl)
