-- ===== src/RedisBucket/Server.antt =====
-- What the script uses of Redis and of Lua's texts of numbers, with the documented behaviour that it
-- relies on.
use rate_limiter_as_a_servic.Floats.{Float64}
use text.Mathlib.Text.{◌==◌ as str_eq}
use rate_limiter_as_a_servic.Base.{
  ℤ, pos, Dict, String, Option, List, ◌≡◌, length, true, ◌++◌, ◌≤ℤ◌, ◌∷◌, some, [], false, ltb_ℤ,
  none, if◌then◌else◌,
}

-- The fields of a stream entry.
abbrev pub Fields : Type 0
Fields = Dict String String

-- `entries` are the entries of a stream, oldest first; TYPE and TIME are read as the script reads
-- them, and HMGET is that of the bucket's two fields.
pub record Redis : Type 1 where
  pub R : Type 0
  pub key_type : R → String → String
  pub time : R → ℤ × ℤ
  pub hmget : R → String → Option String × Option String
  pub hset : R → String → String → String → R
  pub pexpire : R → String → ℤ → R
  pub xlen : R → String → ℤ
  pub xadd : R → String → Fields → R
  pub entries : R → String → List Fields
  pub xlen_entries : (r : R) (s : String) → xlen r s ≡ pos (length (entries r s))
  pub entries_xadd :
      (r : R) (s : String) (f : Fields) → entries (xadd r s f) s ≡ entries r s ++ f ∷ []
  -- A command on one key leaves every other key alone.
  pub entries_hset :
      (r : R) (k s a b : String) → str_eq k s ≡ false → entries (hset r k a b) s ≡ entries r s
  pub entries_pexpire :
      (r : R) (k s : String) (ttl : ℤ)
      → str_eq k s ≡ false
      → entries (pexpire r k ttl) s ≡ entries r s
  pub hmget_hset : (r : R) (k a b : String) → hmget (hset r k a b) k ≡ (some a, some b)
  -- A time to live that is not positive deletes the key.
  pub hmget_pexpire :
      (r : R) (k : String) (ttl : ℤ)
      → hmget (pexpire r k ttl) k ≡ (if ltb_ℤ (pos 0) ttl then hmget r k else (none, none))
  pub hmget_hset_other :
      (r : R) (k j a b : String) → str_eq k j ≡ false → hmget (hset r k a b) j ≡ hmget r j
  pub hmget_pexpire_other :
      (r : R) (k j : String) (ttl : ℤ) → str_eq k j ≡ false → hmget (pexpire r k ttl) j ≡ hmget r j
  pub hmget_xadd :
      (r : R) (k s : String) (f : Fields) → str_eq k s ≡ false → hmget (xadd r s f) k ≡ hmget r k

-- The largest number that Lua's `tostring` writes with all its digits.
abbrev pub max_text : ℤ
max_text = pos 99_999_999_999_999

-- Lua's `tostring` keeps 14 digits. So `tonumber` reads a number of those that are not above an
-- integer as one that is not above it either.
pub record LuaText (N : Float64) : Type 0 where
  pub tostring : N.F → String
  pub tonumber : String → Option N.F
  pub tonumber_tostring :
      (n : ℤ) (x : N.F)
      → N.le (N.of_int (pos 0)) x ≡ true
      → N.le x (N.of_int n) ≡ true
      → n ≤ℤ max_text
      → (y : N.F) × (tonumber (tostring x) ≡ some y)
        × (N.le (N.of_int (pos 0)) y ≡ true)
        × (N.le y (N.of_int n) ≡ true)
