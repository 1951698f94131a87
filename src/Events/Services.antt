-- ===== src/Events/Services.antt =====
-- What the processor uses of PostgreSQL and of Redis: their operations, and the documented behaviour
-- that it relies on. A call may fail whenever the service chooses.
use text.Mathlib.Text.{◌==◌ as str_eq}
use rate_limiter_as_a_servic.Limiter.{Result, Error}
use rate_limiter_as_a_servic.Base.{
  String, Option, List, ◌≡◌, ◌⊎◌, none, Bool, true, false, ◌∷◌, ◌||◌, [],
}
use rate_limiter_as_a_servic.Events.Decode.{CreateApprovedRequestParams, XMessage}

-- A transaction is a value: until its commit it leaves the database as it is, and a rollback drops
-- it. `holds` tells that there is a row with that stream ID, `will_hold` that the transaction has
-- inserted one or has found it.
pub record Database : Type 1 where
  pub Db : Type 0
  pub Tx : Type 0
  pub begin_tx : Db → Result Tx
  pub create_approved_request : Tx → CreateApprovedRequestParams → Option Error × Tx
  pub commit : Tx → Db → Option Error × Db
  pub holds : Db → String → Type 0
  pub will_hold : Tx → String → Type 0
  -- An insertion that succeeds leaves a row with its ID, and none undoes another.
  pub create_inserts :
      (t : Tx) (p : CreateApprovedRequestParams)
      → (create_approved_request t p).0 ≡ none
      → will_hold (create_approved_request t p).1 p.stream_id
  pub create_keeps :
      (t : Tx) (p : CreateApprovedRequestParams) (id : String)
      → will_hold t id
      → will_hold (create_approved_request t p).1 id
  -- A commit that is confirmed is durable, and no commit deletes a row.
  pub commit_stores :
      (t : Tx) (db : Db) (id : String)
      → (commit t db).0 ≡ none
      → will_hold t id
      → holds (commit t db).1 id
  pub commit_keeps : (t : Tx) (db : Db) (id : String) → holds db id → holds (commit t db).1 id

abbrev pub contains : String → List String → Bool
contains id [] = false
contains id (x ∷ xs) = str_eq id x || contains id xs

pub record XStream : Type 0 where
  pub stream : String
  pub messages : List XMessage

-- `has_entry` tells that the stream has an entry with that ID.
pub record Streams : Type 1 where
  pub Redis : Type 0
  pub x_read_group : Redis → Result (List XStream) × Redis
  pub x_auto_claim : Redis → Result (List XMessage) × Redis
  -- XACK and XDEL in one MULTI.
  pub ack_and_delete : Redis → List String → Option Error × Redis
  pub has_entry : Redis → String → Type 0
  -- Delivery deletes nothing, and XDEL deletes only the IDs that it is given, also if its answer is
  -- lost.
  pub read_keeps : (r : Redis) (id : String) → has_entry r id → has_entry (x_read_group r).1 id
  pub claim_keeps : (r : Redis) (id : String) → has_entry r id → has_entry (x_auto_claim r).1 id
  pub delete_keeps :
      (r : Redis) (ids : List String) (id : String)
      → has_entry r id
      → has_entry (ack_and_delete r ids).1 id ⊎ (contains id ids ≡ true)
