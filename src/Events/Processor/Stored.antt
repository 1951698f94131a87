-- ===== src/Events/Processor/Stored.antt =====
-- What a batch has done when it reports no error.
use rate_limiter_as_a_servic.Limiter.{Result, Error, ok, err}
use rate_limiter_as_a_servic.Base.{
  ℕ, List, String, Option, [], ◌∷◌, ◌≡◌, none, some, true, length, ap, subst, refl, ◌∙◌, suc, ℤ,
}
use rate_limiter_as_a_servic.Events.Decode.{CreateApprovedRequestParams, XMessage}
use rate_limiter_as_a_servic.Events.Services.{Database, Streams, contains}
use rate_limiter_as_a_servic.Events.Processor.{
  insert_all, requests_of, persist_messages, after_begin, after_delete, after_decoding,
  after_commit, after_inserts,
}
use rate_limiter_as_a_servic.Events.Processor.Inserted.{
  ids_of, message_ids, insert_all-inserted, requests_of-ids,
}

length-message_ids : (messages : List XMessage) → length (message_ids messages) ≡ length messages
length-message_ids [] = refl
length-message_ids (message ∷ messages) = ap suc (length-message_ids messages)

module _ (parse_int : String → Result ℤ) (D : Database) (R : Streams) where
  -- The answer of a batch of those IDs.
  abbrev Stores : List String → (ℕ × Option Error) × D.Db × R.Redis → Type 0
  Stores ids ((count, failure), db, redis) =
      failure ≡ none
      → (count ≡ length ids) × ((id : String) → contains id ids ≡ true → D.holds db id)

  after_delete-Stores :
      (db : D.Db) (ids : List String) (out : Option Error × R.Redis)
      → ((id : String) → contains id ids ≡ true → D.holds db id)
      → Stores ids (after_delete parse_int D R db ids out)
  after_delete-Stores db ids (some e, redis) held fine = cc
  after_delete-Stores db ids (none, redis) held fine = (refl, held)

  after_commit-Stores :
      (redis : R.Redis) (ids : List String) (out : Option Error × D.Db)
      → ((id : String) → out.0 ≡ none → contains id ids ≡ true → D.holds out.1 id)
      → Stores ids (after_commit parse_int D R redis ids out)
  after_commit-Stores redis ids (some e, db) held fine = cc
  after_commit-Stores redis ids (none, db) held fine =
      after_delete-Stores db ids (R.ack_and_delete redis ids) (λ id. held id refl) fine

  after_inserts-Stores :
      (db : D.Db) (redis : R.Redis) (ids : List String) (out : Option Error × D.Tx)
      → ((id : String) → out.0 ≡ none → contains id ids ≡ true → D.will_hold out.1 id)
      → Stores ids (after_inserts parse_int D R db redis ids out)
  after_inserts-Stores db redis ids (some e, tx) inserted fine = cc
  after_inserts-Stores db redis ids (none, tx) inserted fine =
      after_commit-Stores redis ids (D.commit tx db)
        (λ id committed listed. D.commit_stores tx db id committed (inserted id refl listed)) fine

  after_begin-Stores :
      (db : D.Db) (redis : R.Redis) (requests : List CreateApprovedRequestParams)
      (ids : List String) (began : Result D.Tx)
      → ids ≡ ids_of requests
      → Stores ids (after_begin parse_int D R db redis (requests, ids) began)
  after_begin-Stores db redis requests ids (err e) same fine = cc
  after_begin-Stores db redis requests ids (ok tx) same fine =
      after_inserts-Stores db redis ids (insert_all parse_int D R tx requests)
        (λ id inserted listed.
          insert_all-inserted parse_int D R requests tx id inserted
            (subst (λ l. contains id l ≡ true) same listed))
        fine

  after_decoding-Stores :
      (db : D.Db) (redis : R.Redis) (messages : List XMessage)
      (batch : Result (List CreateApprovedRequestParams × List String))
      → ((requests : List CreateApprovedRequestParams) (ids : List String)
          → batch ≡ ok (requests, ids)
          → (ids ≡ ids_of requests) × (ids ≡ message_ids messages))
      → Stores (message_ids messages) (after_decoding parse_int D R db redis batch)
  after_decoding-Stores db redis messages (err e) same fine = cc
  after_decoding-Stores db redis messages (ok (requests, ids)) same fine =
      let (rows, listed) = same requests ids refl in
      subst (λ l. Stores l (after_begin parse_int D R db redis (requests, ids) (D.begin_tx db)))
        listed (after_begin-Stores db redis requests ids (D.begin_tx db) rows) fine

  -- A batch that reports no error is stored, and its count is right: where `persistMessages` returns
  -- no error, the number it returns is that of the messages, and the table holds a row for each ID
  -- among them.
  pub persist_messages-stored :
      (db : D.Db) (redis : R.Redis) (messages : List XMessage) (id : String)
      → (persist_messages parse_int D R db redis messages).0.1 ≡ none
      → contains id (message_ids messages) ≡ true
      → ((persist_messages parse_int D R db redis messages).0.0 ≡ length messages)
        × D.holds (persist_messages parse_int D R db redis messages).1 id
  unfolding persist_messages
  persist_messages-stored db redis [] id fine listed = cc
  persist_messages-stored db redis (message ∷ messages) id fine listed =
      let (count, held) =
        after_decoding-Stores db redis (message ∷ messages)
          (requests_of parse_int D R (message ∷ messages))
          (requests_of-ids parse_int D R (message ∷ messages)) fine in
      (count ∙ length-message_ids (message ∷ messages), held id listed)
