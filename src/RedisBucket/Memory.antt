-- ===== src/RedisBucket/Memory.antt =====
-- A Redis of association lists and numbers in unary, to show that the laws can be met and to run
-- tests. A key's time to live is not kept.
pub mod Unary
use rate_limiter_as_a_servic.Floats.Whole.{whole_numbers}
use rate_limiter_as_a_servic.RedisBucket.Server.{Redis, LuaText, Fields, max_text}
use rate_limiter_as_a_servic.Events.Decode.{string_keys}
use text.Mathlib.Text.{◌==◌ as str_eq}
use text.Mathlib.TextEquality.{eq_iff}
use rate_limiter_as_a_servic.Base.{
  ℤ, pos, negsuc, ℕ, suc, zero, String, Option, ◌≡◌, List, [], ◌∷◌, lookup, insert, lookup-insert,
  lookup-insert_self, Bool-cases, inl, inr, ltb_ℤ, if◌then◌else◌, false, ◌∙◌, sym, Dict, none, some,
  refl, length, ◌++◌, true, leb_ℤ, ◌≤ℤ◌, arith, ap, lookup-insert_self, if◌then◌else◌, ltb_ℤ,
}

abbrev pub unary : ℕ → String
unary zero = "0"
unary (suc n) = String.◌∷◌ "1" (unary n)

abbrev pub tostring : ℤ → String
tostring (pos n) = unary n
tostring (negsuc n) = "-"

abbrev pub size : String → ℕ
size String.[] = 0
size (String.◌∷◌ c s) = suc (size s)

-- A text of one more character than the number.
abbrev pub tonumber : String → ℤ
tonumber String.[] = pos 0
tonumber (String.◌∷◌ c s) = pos (size s)

size-unary : (n : ℕ) → size (unary n) ≡ suc n
size-unary zero = refl
size-unary (suc n) = ap suc (size-unary n)

pub tonumber-unary : (n : ℕ) → tonumber (unary n) ≡ pos n
tonumber-unary zero = refl
tonumber-unary (suc n) = ap pos (size-unary n)

-- Hashes hold the two fields of a bucket, until they are deleted.
pub record Memory : Type 0 where
  pub hashes : Dict String (Option (String × String))
  pub streams : Dict String (List Fields)
  pub clock : ℤ × ℤ

abbrev fields_of : Option (Option (String × String)) → Option String × Option String
fields_of none = (none, none)
fields_of (some none) = (none, none)
fields_of (some (some (a, b))) = (some a, some b)

abbrev pub entries_of : Option (List Fields) → List Fields
entries_of none = []
entries_of (some es) = es

abbrev pub type_of_stream : Option (List Fields) → String
type_of_stream (some es) = "stream"
type_of_stream none = "none"

abbrev pub type_of : Option (Option (String × String)) → Option (List Fields) → String
type_of (some (some h)) s = "hash"
type_of (some none) s = type_of_stream s
type_of none s = type_of_stream s

abbrev pub entries : Memory → String → List Fields
entries m s = entries_of (lookup s m.streams)

abbrev pub expire : Memory → String → ℤ → Memory
expire m k ttl = if ltb_ℤ (pos 0) ttl then m else record m { hashes = insert k none m.hashes }

abbrev pub fields : Memory → String → Option String × Option String
fields m k = fields_of (lookup k m.hashes)

-- An insertion elsewhere.
other_fields :
    (k j : String) (v : Option (String × String)) (m : Dict String (Option (String × String)))
    → str_eq k j ≡ false
    → lookup j (insert k v m) ≡ lookup j m
other_fields k j v m apart =
    let distinct : str_eq j k ≡ false = elim (Bool-cases (str_eq j k)) [
      | inl same ↦
          let equal : k ≡ j = sym ((eq_iff j k).0 same) in
          let wrong : true ≡ false = sym ((eq_iff k j).1 equal) ∙ apart in cc
      | inr differ ↦ differ
    ] in
    lookup-insert k j v m ∙ (rw distinct refl)

pub entries-expire :
    (m : Memory) (k s : String) (ttl : ℤ) → entries (expire m k ttl) s ≡ entries m s
entries-expire m k s ttl = elim (Bool-cases (ltb_ℤ (pos 0) ttl)) [
  | inl live ↦ rw live refl
  | inr dead ↦ rw dead refl
]

pub fields-expire :
    (m : Memory) (k : String) (ttl : ℤ)
    → fields (expire m k ttl) k ≡ (if ltb_ℤ (pos 0) ttl then fields m k else (none, none))
fields-expire m k ttl = elim (Bool-cases (ltb_ℤ (pos 0) ttl)) [
  | inl live ↦ rw live refl
  | inr dead ↦ rw dead (ap fields_of (lookup-insert_self k none m.hashes))
]

pub fields-expire_other :
    (m : Memory) (k j : String) (ttl : ℤ)
    → str_eq k j ≡ false
    → fields (expire m k ttl) j ≡ fields m j
fields-expire_other m k j ttl apart = elim (Bool-cases (ltb_ℤ (pos 0) ttl)) [
  | inl live ↦ rw live refl
  | inr dead ↦ rw dead (ap fields_of (other_fields k j none m.hashes apart))
]

pub fields-insert_other :
    (m : Memory) (k j a b : String)
    → str_eq k j ≡ false
    → fields (record m { hashes = insert k (some (a, b)) m.hashes }) j ≡ fields m j
fields-insert_other m k j a b apart = ap fields_of (other_fields k j (some (a, b)) m.hashes apart)

abbrev pub in_memory : Redis
in_memory = record {
  R = Memory;
  key_type = λ m k. type_of (lookup k m.hashes) (lookup k m.streams);
  time = λ m. m.clock;
  hmget = fields;
  hset = λ m k a b. record m { hashes = insert k (some (a, b)) m.hashes };
  pexpire =
      λ m k ttl. if ltb_ℤ (pos 0) ttl then m else record m { hashes = insert k none m.hashes };
  xlen = λ m s. pos (length (entries m s));
  xadd = λ m s f. record m { streams = insert s (entries m s ++ f ∷ []) m.streams };
  entries = entries;
  xlen_entries = λ r s. refl;
  entries_xadd = λ r s f. ap entries_of (lookup-insert_self s (entries r s ++ f ∷ []) r.streams);
  entries_hset = λ r k s a b h. refl;
  entries_pexpire = λ r k s ttl h. entries-expire r k s ttl;
  hmget_hset = λ r k a b. ap fields_of (lookup-insert_self k (some (a, b)) r.hashes);
  hmget_pexpire = fields-expire;
  hmget_hset_other = fields-insert_other;
  hmget_pexpire_other = fields-expire_other;
  hmget_xadd = λ r k s f h. refl;
}

pub tonumber_tostring_ℤ :
    (n x : ℤ)
    → leb_ℤ (pos 0) x ≡ true
    → leb_ℤ x n ≡ true
    → n ≤ℤ max_text
    → (y : ℤ) × (some (tonumber (tostring x)) ≡ some y)
      × (leb_ℤ (pos 0) y ≡ true)
      × (leb_ℤ y n ≡ true)
tonumber_tostring_ℤ n (pos x) lo hi small = (pos x, ap some (tonumber-unary x), lo, hi)
tonumber_tostring_ℤ n (negsuc x) lo hi small = absurd (ground arith)

abbrev pub in_unary : LuaText whole_numbers
in_unary = record {
  tostring = tostring;
  tonumber = λ t. some (tonumber t);
  tonumber_tostring = tonumber_tostring_ℤ;
}
