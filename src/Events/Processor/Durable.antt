-- ===== src/Events/Processor/Durable.antt =====
-- An approval event is deleted from the stream only when its row is committed.
use rate_limiter_as_a_servic.Events.Processor.Inserted.{
  ids_of, requests_of-ids, insert_all-inserted,
}
use rate_limiter_as_a_servic.Events.Processor.{
  insert_all, requests_of, persist_messages, persist_streams, consumed, recovered, ok, Error,
  after_begin, after_delete, err, after_decoding, after_commit, after_inserts, errors_is, redis_nil,
  consume_new, recover_pending,
}
use rate_limiter_as_a_servic.Limiter.{Result, ok, Error, errors_is, redis_nil}
use rate_limiter_as_a_servic.Base.{
  ℤ, List, String, ◌∷◌, ◌⊎◌, Option, inl, ◌≡◌, [], none, inr, ℕ, some, true, Option-cases, subst,
  Bool-cases, ◌+◌, refl,
}
use rate_limiter_as_a_servic.Events.Decode.{CreateApprovedRequestParams, XMessage}
use rate_limiter_as_a_servic.Events.Services.{Database, Streams, XStream, contains}

module _ (parse_int : String → Result ℤ) (D : Database) (R : Streams) where
  -- An event is safe while the stream has it or the table has its row.
  abbrev pub IsSafe : String → D.Db → R.Redis → Type 0
  IsSafe id db redis = R.has_entry redis id ⊎ D.holds db id

  after_delete-IsSafe :
      (db : D.Db) (ids : List String) (out : Option Error × R.Redis) (id : String)
      → IsSafe id db out.1
      → let (_, db', redis') = after_delete parse_int D R db ids out in IsSafe id db' redis'
  after_delete-IsSafe db ids (some e, redis) id safe = safe
  after_delete-IsSafe db ids (none, redis) id safe = safe

  after_commit-IsSafe :
      (redis : R.Redis) (ids : List String) (out : Option Error × D.Db) (id : String)
      → (out.0 ≡ none → contains id ids ≡ true → D.holds out.1 id)
      → IsSafe id out.1 redis
      → let (_, db', redis') = after_commit parse_int D R redis ids out in IsSafe id db' redis'
  after_commit-IsSafe redis ids (some e, db) id stored safe = safe
  after_commit-IsSafe redis ids (none, db) id stored safe =
      after_delete-IsSafe db ids (R.ack_and_delete redis ids) id (elim safe [
        | inr held ↦ inr held
        | inl entry ↦ elim (R.delete_keeps redis ids id entry) [
          | inl still ↦ inl still
          | inr listed ↦ inr (stored refl listed)
        ]
      ])

  commit-IsSafe :
      (tx : D.Tx) (db : D.Db) (redis : R.Redis) (id : String)
      → IsSafe id db redis
      → IsSafe id (D.commit tx db).1 redis
  commit-IsSafe tx db redis id (inl entry) = inl entry
  commit-IsSafe tx db redis id (inr held) = inr (D.commit_keeps tx db id held)

  after_inserts-IsSafe :
      (db : D.Db) (redis : R.Redis) (ids : List String) (out : Option Error × D.Tx) (id : String)
      → (out.0 ≡ none → contains id ids ≡ true → D.will_hold out.1 id)
      → IsSafe id db redis
      → let (_, db', redis') = after_inserts parse_int D R db redis ids out in IsSafe id db' redis'
  after_inserts-IsSafe db redis ids (some e, tx) id inserted safe = safe
  after_inserts-IsSafe db redis ids (none, tx) id inserted safe =
      after_commit-IsSafe redis ids (D.commit tx db) id
        (λ committed listed. D.commit_stores tx db id committed (inserted refl listed))
        (commit-IsSafe tx db redis id safe)

  after_begin-IsSafe :
      (db : D.Db) (redis : R.Redis) (requests : List CreateApprovedRequestParams)
      (ids : List String) (began : Result D.Tx) (id : String)
      → ids ≡ ids_of requests
      → IsSafe id db redis
      → let (_, db', redis') = after_begin parse_int D R db redis (requests, ids) began in
        IsSafe id db' redis'
  after_begin-IsSafe db redis requests ids (err e) id same safe = safe
  after_begin-IsSafe db redis requests ids (ok tx) id same safe =
      after_inserts-IsSafe db redis ids (insert_all parse_int D R tx requests) id
        (λ inserted listed.
          insert_all-inserted parse_int D R requests tx id inserted
            (subst (λ l. contains id l ≡ true) same listed))
        safe

  after_decoding-IsSafe :
      (db : D.Db) (redis : R.Redis)
      (batch : Result (List CreateApprovedRequestParams × List String)) (id : String)
      → ((requests : List CreateApprovedRequestParams) (ids : List String)
          → batch ≡ ok (requests, ids)
          → ids ≡ ids_of requests)
      → IsSafe id db redis
      → let (_, db', redis') = after_decoding parse_int D R db redis batch in IsSafe id db' redis'
  after_decoding-IsSafe db redis (err e) id same safe = safe
  after_decoding-IsSafe db redis (ok (requests, ids)) id same safe =
      after_begin-IsSafe db redis requests ids (D.begin_tx db) id (same requests ids refl) safe

  persist_messages-IsSafe :
      (db : D.Db) (redis : R.Redis) (messages : List XMessage) (id : String)
      → IsSafe id db redis
      → let (_, db', redis') = persist_messages parse_int D R db redis messages in
        IsSafe id db' redis'
  unfolding persist_messages
  persist_messages-IsSafe db redis [] id safe = safe
  persist_messages-IsSafe db redis (message ∷ messages) id safe =
      after_decoding-IsSafe db redis (requests_of parse_int D R (message ∷ messages)) id
        (λ requests ids e. (requests_of-ids parse_int D R (message ∷ messages) requests ids e).0)
        safe

  persist_streams-IsSafe :
      (streams : List XStream) (processed : ℕ) (db : D.Db) (redis : R.Redis) (id : String)
      → IsSafe id db redis
      → let (_, db', redis') = persist_streams parse_int D R processed db redis streams in
        IsSafe id db' redis'
  unfolding persist_streams
  persist_streams-IsSafe [] processed db redis id safe = safe
  persist_streams-IsSafe (stream ∷ streams) processed db redis id safe =
      let done = persist_messages parse_int D R db redis stream.messages in
      let now_safe = persist_messages-IsSafe db redis stream.messages id safe in
      elim (Option-cases done.0.1) [
        | inl fine ↦
            rw (fine, persist_streams)
              (persist_streams-IsSafe streams (processed + done.0.0) done.1 done.2 id now_safe)
        | inr (e, failed) ↦ rw (failed, persist_streams) now_safe
      ]

  consumed-IsSafe :
      (db : D.Db) (read : Result (List XStream) × R.Redis) (id : String)
      → IsSafe id db read.1
      → let (_, db', redis') = consumed parse_int D R db read in IsSafe id db' redis'
  consumed-IsSafe db (ok streams, redis) id safe = persist_streams-IsSafe streams 0 db redis id safe
  consumed-IsSafe db (err e, redis) id safe = elim (Bool-cases (errors_is e redis_nil)) [
    | inl nothing ↦ rw nothing safe
    | inr failed ↦ rw failed safe
  ]

  recovered-IsSafe :
      (db : D.Db) (read : Result (List XMessage) × R.Redis) (id : String)
      → IsSafe id db read.1
      → let (_, db', redis') = recovered parse_int D R db read in IsSafe id db' redis'
  recovered-IsSafe db (ok messages, redis) id safe =
      persist_messages-IsSafe db redis messages id safe
  recovered-IsSafe db (err e, redis) id safe = elim (Bool-cases (errors_is e redis_nil)) [
    | inl nothing ↦ rw nothing safe
    | inr failed ↦ rw failed safe
  ]

  abbrev pub left : (ℕ × Option Error) × D.Db × R.Redis → D.Db × R.Redis
  left (result, db, redis) = (db, redis)

  -- What happens between two states of the database and the stream: a run of one of the worker's
  -- operations, or anything else that deletes no entry, as an approval that appends one.
  pub data Happens : D.Db × R.Redis → D.Db × R.Redis → Type 0 where
    idle : {x : D.Db × R.Redis} → Happens x x
    consume :
        {x : D.Db × R.Redis} (db : D.Db) (redis : R.Redis)
        → Happens x (db, redis)
        → Happens x (left (consume_new parse_int D R db redis))
    recover :
        {x : D.Db × R.Redis} (db : D.Db) (redis : R.Redis)
        → Happens x (db, redis)
        → Happens x (left (recover_pending parse_int D R db redis))
    append_entries :
        {x : D.Db × R.Redis} (db : D.Db) (redis redis' : R.Redis)
        → ((id : String) → R.has_entry redis id → R.has_entry redis' id)
        → Happens x (db, redis)
        → Happens x (db, redis')

  read-IsSafe :
      (db : D.Db) (redis redis' : R.Redis) (id : String)
      → (R.has_entry redis id → R.has_entry redis' id)
      → IsSafe id db redis
      → IsSafe id db redis'
  read-IsSafe db redis redis' id keeps (inl entry) = inl (keeps entry)
  read-IsSafe db redis redis' id keeps (inr held) = inr held

  Happens-IsSafe :
      (id : String) {x y : D.Db × R.Redis} → Happens x y → IsSafe id x.0 x.1 → IsSafe id y.0 y.1
  unfolding consume_new recover_pending
  Happens-IsSafe id idle safe = safe
  Happens-IsSafe id (consume db redis before) safe = consumed-IsSafe db (R.x_read_group redis) id (
      read-IsSafe db redis (R.x_read_group redis).1 id (R.read_keeps redis id)
        (Happens-IsSafe id before safe))
  Happens-IsSafe id (recover db redis before) safe = recovered-IsSafe db (R.x_auto_claim redis) id (
      read-IsSafe db redis (R.x_auto_claim redis).1 id (R.claim_keeps redis id)
        (Happens-IsSafe id before safe))
  Happens-IsSafe id (append_entries db redis redis' keeps before) safe =
      read-IsSafe db redis redis' id (keeps id) (Happens-IsSafe id before safe)

  -- Whatever fails, and in whatever order workers and approvals follow each other: an approval event
  -- that is in the stream, or whose row is in the table, is in the stream or in the table ever after.
  -- (Its entry goes only once its row is committed.)
  pub event_never_lost :
      (db : D.Db) (redis : R.Redis) (db' : D.Db) (redis' : R.Redis) (id : String)
      → Happens (db, redis) (db', redis')
      → IsSafe id db redis
      → IsSafe id db' redis'
  event_never_lost db redis db' redis' id h safe = Happens-IsSafe id h safe
