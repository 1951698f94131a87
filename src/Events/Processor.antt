-- ===== src/Events/Processor.antt =====
-- internal/events/processor.go and persist.go: a batch of messages is written to PostgreSQL in one
-- transaction, and only then acknowledged and deleted. The parameters of the Redis commands (stream,
-- group, consumer, batch size) are those of the processor's configuration, which does not change.
pub mod Inserted
pub mod Durable
pub mod Stored
pub mod Undecodable
use rate_limiter_as_a_servic.Limiter.{
  Result, Error, wrapped, error_text, ok, err, plain, errors_is, redis_nil, and_then,
}
use rate_limiter_as_a_servic.Clock.{Duration}
use rate_limiter_as_a_servic.Base.{
  ℤ, pos, Bool, String, if◌then◌else◌, ℕ, List, not, Option, none, some, ◌||◌, length, ◌+◌, [], ◌∷◌,
  leb_ℤ,
}
use rate_limiter_as_a_servic.Events.Decode.{CreateApprovedRequestParams, XMessage, approval_request}
use rate_limiter_as_a_servic.Events.Services.{Database, Streams, XStream}
use Prim.Native.String.{◌++◌ as append, String, ◌∷◌}
use text.Mathlib.Text.{◌==◌ as str_eq}

pub record Config : Type 0 where
  pub stream : String
  pub group : String
  pub consumer : String
  pub batch_size : ℤ
  pub block : Duration
  pub claim_idle : Duration

-- The clients are arguments of the operations; `has_redis` and `has_pool` tell that they are not nil.
unfoldable pub new_processor : Bool → Bool → Config → Result Config
new_processor has_redis has_pool config =
    if not has_redis
    then err (plain "redis client is required")
    else if not has_pool
    then err (plain "postgres pool is required")
    else if str_eq config.stream "" || str_eq config.group "" || str_eq config.consumer ""
    then err (plain "stream, group, and consumer are required")
    else if leb_ℤ config.batch_size (pos 0)
        || leb_ℤ config.block (pos 0)
        || leb_ℤ config.claim_idle (pos 0)
    then err (plain "batch size, block duration, and claim idle duration must be positive")
    else ok config

-- `fmt.Errorf("…: %w", err)`
abbrev pub because : String → Error → Error
because text e = wrapped (append text (append ": " (error_text e))) e

module _ (parse_int : String → Result ℤ) (D : Database) (R : Streams) where
  -- The count and the error that an operation returns, and what it leaves.
  abbrev pub Effect : Type 0
  Effect = (ℕ × Option Error) × D.Db × R.Redis

  -- The loop that decodes all messages before the transaction begins.
  unfoldable pub requests_of :
      List XMessage → Result (List CreateApprovedRequestParams × List String)
  requests_of [] = ok ([], [])
  requests_of (message ∷ messages) = and_then (approval_request parse_int message) (λ request.
      and_then (requests_of messages)
        (λ (requests, ids). ok (request ∷ requests, message.id ∷ ids)))

  -- The loop inside the transaction.
  unfoldable pub insert_all : D.Tx → List CreateApprovedRequestParams → Option Error × D.Tx
  insert_all tx [] = (none, tx)
  insert_all tx (request ∷ requests) =
      let (failure, tx') = D.create_approved_request tx request in
      elim failure [
        | some e ↦ (some (because (append "persist approval event " request.stream_id) e), tx')
        | none ↦ insert_all tx' requests
      ]

  abbrev pub after_delete : D.Db → List String → Option Error × R.Redis → Effect
  after_delete db ids (some e, redis) =
      ((0, some (because "remove persisted approval events" e)), db, redis)
  after_delete db ids (none, redis) = ((length ids, none), db, redis)

  abbrev pub after_commit : R.Redis → List String → Option Error × D.Db → Effect
  after_commit redis ids (some e, db) = ((0, some (because "commit approval events" e)), db, redis)
  after_commit redis ids (none, db) = after_delete db ids (R.ack_and_delete redis ids)

  abbrev pub after_inserts : D.Db → R.Redis → List String → Option Error × D.Tx → Effect
  after_inserts db redis ids (some e, tx) = ((0, some e), db, redis)
  after_inserts db redis ids (none, tx) = after_commit redis ids (D.commit tx db)

  abbrev pub after_begin :
      D.Db → R.Redis → List CreateApprovedRequestParams × List String → Result D.Tx → Effect
  after_begin db redis batch (err e) =
      ((0, some (because "begin approval event transaction" e)), db, redis)
  after_begin db redis (requests, ids) (ok tx) = after_inserts db redis ids (insert_all tx requests)

  abbrev pub after_decoding :
      D.Db → R.Redis → Result (List CreateApprovedRequestParams × List String) → Effect
  after_decoding db redis (err e) = ((0, some e), db, redis)
  after_decoding db redis (ok batch) = after_begin db redis batch (D.begin_tx db)

  unfoldable pub persist_messages : D.Db → R.Redis → List XMessage → Effect
  persist_messages db redis [] = ((0, none), db, redis)
  persist_messages db redis (message ∷ messages) =
      after_decoding db redis (requests_of (message ∷ messages))

  -- `processed` is what the loop has counted so far.
  unfoldable pub persist_streams : ℕ → D.Db → R.Redis → List XStream → Effect
  persist_streams processed db redis [] = ((processed, none), db, redis)
  persist_streams processed db redis (stream ∷ streams) =
      let ((count, failure), db', redis') = persist_messages db redis stream.messages in
      elim failure [
        | some e ↦ ((processed, some e), db', redis')
        | none ↦ persist_streams (processed + count) db' redis' streams
      ]

  abbrev pub consumed : D.Db → Result (List XStream) × R.Redis → Effect
  consumed db (ok streams, redis) = persist_streams 0 db redis streams
  consumed db (err e, redis) =
      if errors_is e redis_nil
      then ((0, none), db, redis)
      else ((0, some (because "read approval events" e)), db, redis)

  unfoldable pub consume_new : D.Db → R.Redis → Effect
  consume_new db redis = consumed db (R.x_read_group redis)

  abbrev pub recovered : D.Db → Result (List XMessage) × R.Redis → Effect
  recovered db (ok messages, redis) = persist_messages db redis messages
  recovered db (err e, redis) =
      if errors_is e redis_nil
      then ((0, none), db, redis)
      else ((0, some (because "claim abandoned approval events" e)), db, redis)

  unfoldable pub recover_pending : D.Db → R.Redis → Effect
  recover_pending db redis = recovered db (R.x_auto_claim redis)
