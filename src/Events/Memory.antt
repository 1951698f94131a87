-- ===== src/Events/Memory.antt =====
-- A database and a stream that are lists, to show that the laws can be met and to run tests.
use rate_limiter_as_a_servic.Limiter.{Result, ok, err, plain}
use rate_limiter_as_a_servic.Base.{
  ℤ, pos, String, List, [], ◌∷◌, ◌≡◌, true, ◌++◌, if◌then◌else◌, ◌⊎◌, inl, inr, none, refl, arith,
  Bool-cases, subst, sym,
}
use text.Mathlib.Text.{◌==◌ as str_eq}
use text.Mathlib.TextEquality.{eq_iff}
use rate_limiter_as_a_servic.Events.Decode.{XMessage}
use rate_limiter_as_a_servic.Events.Services.{Database, Streams, contains}

-- A parser that knows three numbers.
abbrev pub parse_int : String → Result ℤ
parse_int text =
    if str_eq text "2"
    then ok (pos 2)
    else if str_eq text "98"
    then ok (pos 98)
    else if str_eq text "1790000000000"
    then ok (pos 1_790_000_000_000)
    else err (plain "invalid syntax")

abbrev pub Has : String → List String → Type 0
Has id ids = contains id ids ≡ true

pub contains-cons : (id x : String) (ids : List String) → Has id ids → Has id (x ∷ ids)
contains-cons id x ids h = ground arith

pub contains_self : (id : String) (ids : List String) → Has id (id ∷ ids)
contains_self id ids = rw ((eq_iff id id).1 refl)

pub contains_append : (id : String) (xs ys : List String) → Has id ys → Has id (xs ++ ys)
contains_append id [] ys h = h
contains_append id (x ∷ xs) ys h = contains-cons id x (xs ++ ys) (contains_append id xs ys h)

pub contains_append_left : (id : String) (xs ys : List String) → Has id xs → Has id (xs ++ ys)
contains_append_left id [] ys h = cc
contains_append_left id (x ∷ xs) ys h = ground (arith, contains_append_left id xs ys)

-- Nothing fails here.
abbrev pub tables : Database
tables = record {
  Db = List String;
  Tx = List String;
  begin_tx = λ db. ok [];
  create_approved_request = λ t p. (none, p.stream_id ∷ t);
  commit = λ t db. (none, t ++ db);
  holds = λ db id. Has id db;
  will_hold = λ t id. Has id t;
  create_inserts = λ t p e. contains_self p.stream_id t;
  create_keeps = λ t p id h. contains-cons id p.stream_id t h;
  commit_stores = λ t db id e h. contains_append_left id t db h;
  commit_keeps = λ t db id h. contains_append id t db h;
}

abbrev pub entries : List XMessage → List String
entries [] = []
entries (m ∷ ms) = m.id ∷ entries ms

abbrev pub without : List String → List XMessage → List XMessage
without ids [] = []
without ids (m ∷ ms) = if contains m.id ids then without ids ms else m ∷ without ids ms

pub without_keeps :
    (ids : List String) (ms : List XMessage) (id : String)
    → Has id (entries ms)
    → Has id (entries (without ids ms)) ⊎ Has id ids
without_keeps ids [] id h = inl h
without_keeps ids (m ∷ ms) id h = elim (Bool-cases (str_eq id m.id)) [
  | inl same ↦ elim (Bool-cases (contains m.id ids)) [
    | inl del ↦ inr (subst (λ i. Has i ids) (sym ((eq_iff id m.id).0 same)) del)
    | inr kept ↦ inl (ground arith)
  ]
  | inr other ↦ elim (without_keeps ids ms id (rw other at h)) [
    | inl still ↦ inl (ground arith)
    | inr listed ↦ inr listed
  ]
]

abbrev pub stream : Streams
stream = record {
  Redis = List XMessage;
  x_read_group = λ r. (ok (record { stream = "approved"; messages = r } ∷ []), r);
  x_auto_claim = λ r. (ok r, r);
  ack_and_delete = λ r ids. (none, without ids r);
  has_entry = λ r id. Has id (entries r);
  read_keeps = λ r id h. h;
  claim_keeps = λ r id h. h;
  delete_keeps = λ r ids id h. without_keeps ids r id h;
}

abbrev pub approved : XMessage
approved = record {
  id = "1790000000000-0";
  values =
      ("client_id", "client-a")
      ∷ ("resource", "openai")
      ∷ ("cost", "2")
      ∷ ("approved_at_ms", "1790000000000")
      ∷ ("remaining", "98")
      ∷ [];
}
