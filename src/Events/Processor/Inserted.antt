-- ===== src/Events/Processor/Inserted.antt =====
-- The rows of a batch: what the loops over its messages collect and insert.
use rate_limiter_as_a_servic.Events.Processor.{insert_all, requests_of, ok, Error, because}
use rate_limiter_as_a_servic.Limiter.{Result, ok, Error, ok-injective, and_then-ok}
use rate_limiter_as_a_servic.Base.{
  ℤ, List, String, ◌∷◌, ◌⊎◌, inl, ◌≡◌, [], none, inr, some, true, Option-cases, ap, sym, subst,
  Bool-cases, refl, ◌∙◌,
}
use rate_limiter_as_a_servic.Events.Decode.{CreateApprovedRequestParams, XMessage, approval_request}
use rate_limiter_as_a_servic.Events.Decode.Fields.{approval_request-IsRowOf}
use rate_limiter_as_a_servic.Events.Services.{Database, Streams, contains}
use Prim.Native.String.{◌++◌ as append}
use text.Mathlib.Text.{◌==◌ as str_eq}
use text.Mathlib.TextEquality.{eq_iff}

abbrev pub ids_of : List CreateApprovedRequestParams → List String
ids_of [] = []
ids_of (request ∷ requests) = request.stream_id ∷ ids_of requests

abbrev pub message_ids : List XMessage → List String
message_ids [] = []
message_ids (message ∷ messages) = message.id ∷ message_ids messages

module _ (parse_int : String → Result ℤ) (D : Database) (R : Streams) where
  -- What inserting one more row does.
  insert_all-cons :
      (tx : D.Tx) (request : CreateApprovedRequestParams)
      (requests : List CreateApprovedRequestParams)
      → ((D.create_approved_request tx request).0 ≡ none)
          × (insert_all parse_int D R tx (request ∷ requests)
              ≡ insert_all parse_int D R (D.create_approved_request tx request).1 requests)
        ⊎ ((e : Error) × (insert_all parse_int D R tx (request ∷ requests)
              ≡ (some e, (D.create_approved_request tx request).1)))
  unfolding insert_all
  insert_all-cons tx request requests =
      elim (Option-cases (D.create_approved_request tx request).0) [
        | inl done ↦ inl (done, rw (done, insert_all) refl)
        | inr (e, failed) ↦ inr (
          because (append "persist approval event " request.stream_id) e,
          rw (failed, insert_all) refl,
        )
      ]

  insert_all-will_hold :
      (requests : List CreateApprovedRequestParams) (tx : D.Tx) (id : String)
      → D.will_hold tx id
      → D.will_hold (insert_all parse_int D R tx requests).1 id
  unfolding insert_all
  insert_all-will_hold [] tx id held = held
  insert_all-will_hold (request ∷ requests) tx id held =
      let kept = D.create_keeps tx request id held in
      elim (insert_all-cons tx request requests) [
        | inl (done, same) ↦ rw same (insert_all-will_hold requests _ id kept)
        | inr (e, same) ↦ rw same kept
      ]

  -- A batch that is inserted without an error is in the transaction.
  pub insert_all-inserted :
      (requests : List CreateApprovedRequestParams) (tx : D.Tx) (id : String)
      → (insert_all parse_int D R tx requests).0 ≡ none
      → contains id (ids_of requests) ≡ true
      → D.will_hold (insert_all parse_int D R tx requests).1 id
  insert_all-inserted [] tx id inserted listed = cc
  insert_all-inserted (request ∷ requests) tx id inserted listed =
      let tx' = (D.create_approved_request tx request).1 in
      elim (insert_all-cons tx request requests) [
        | inr (e, same) ↦ let failed = ap (λ x. x.0) same in cc
        | inl (done, same) ↦
            let rest : (insert_all parse_int D R tx' requests).0 ≡ none =
              sym (ap (λ x. x.0) same) ∙ inserted in
            elim (Bool-cases (str_eq id request.stream_id)) [
              | inl here ↦ rw same (
                  insert_all-will_hold requests tx' id (
                    subst (D.will_hold tx') (sym ((eq_iff id request.stream_id).0 here))
                      (D.create_inserts tx request done)))
              | inr later ↦ rw same (insert_all-inserted requests tx' id rest (rw later at listed))
            ]
      ]

  pub requests_of-ids :
      (messages : List XMessage) (requests : List CreateApprovedRequestParams) (ids : List String)
      → requests_of parse_int D R messages ≡ ok (requests, ids)
      → (ids ≡ ids_of requests) × (ids ≡ message_ids messages)
  unfolding requests_of
  requests_of-ids [] requests ids e =
      let nothing : ([], []) ≡ (requests, ids) = ok-injective e in
      (sym (ap (λ x. x.1) nothing) ∙ ap (λ x. ids_of x.0) nothing, sym (ap (λ x. x.1) nothing))
  requests_of-ids (message ∷ messages) requests ids e =
      let (request, decodes, e1) =
        and_then-ok (approval_request parse_int message) _ (requests, ids) e in
      let (rest, more, e2) =
        and_then-ok (requests_of parse_int D R messages) _ (requests, ids) e1 in
      let both : (request ∷ rest.0, message.id ∷ rest.1) ≡ (requests, ids) = ok-injective e2 in
      let older = requests_of-ids messages rest.0 rest.1 more in
      let id = (approval_request-IsRowOf parse_int message request decodes).same_id in
      (
        sym (ap (λ x. x.1) both)
            ∙ ap (λ l. message.id ∷ l) older.0
            ∙ ap (λ i. i ∷ ids_of rest.0) (sym id)
            ∙ ap (λ x. ids_of x.0) both,
        sym (ap (λ x. x.1) both) ∙ ap (λ l. message.id ∷ l) older.1,
      )
