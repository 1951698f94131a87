-- ===== src/Floats.antt =====
-- Go's float64 and Lua's numbers: a type of double-precision numbers with the operations that the
-- token buckets use, and what IEEE 754 says of them at the magnitudes in question. A comparison that
-- holds has no NaN on either side, and the two zeros count as one number. `of_int` rounds an integer,
-- `to_int` cuts off the fraction.
pub mod Whole
use rate_limiter_as_a_servic.Base.{
  ℤ, pos, Bool, ◌≡◌, true, not, ◌≤ℤ◌, max_int64, ◌<ℤ◌, leb_ℤ, ◌-ℤ◌, quot, pos_part, ◌*ℤ◌, arith,
  if◌then◌else◌, negsuc, refl, ◌+ℤ◌, ℕ, ◌<◌,
}

-- Up to here every integer has a double of its own.
abbrev pub max_exact : ℤ
max_exact = pos 9_007_199_254_740_992

pub record Float64 : Type 1 where
  pub F : Type 0
  pub of_int : ℤ → F
  pub to_int : F → ℤ
  pub add : F → F → F
  pub subtract : F → F → F
  pub multiply : F → F → F
  pub divide : F → F → F
  pub minimum : F → F → F
  pub maximum : F → F → F
  pub le : F → F → Bool
  pub lt : F → F → Bool
  pub floor : F → F
  pub ceil : F → F
  pub le_trans : (x y z : F) → le x y ≡ true → le y z ≡ true → le x z ≡ true
  pub lt_not_le :
      (c : ℤ) (x : F) → le (of_int (pos 0)) x ≡ true → lt x (of_int c) ≡ not (le (of_int c) x)
  -- Rounding to the nearest double keeps the order.
  pub of_int_mono : (a b : ℤ) → a ≤ℤ b → le (of_int a) (of_int b) ≡ true
  pub add_grows :
      (x y : F)
      → le (of_int (pos 0)) x ≡ true
      → le (of_int (pos 0)) y ≡ true
      → le x (add x y) ≡ true
  pub subtract_shrinks :
      (c : ℤ) (x : F)
      → pos 0 ≤ℤ c
      → c ≤ℤ max_int64
      → le (of_int c) x ≡ true
      → le (subtract x (of_int c)) x ≡ true
  pub subtract_nonneg :
      (c : ℤ) (x : F)
      → pos 0 ≤ℤ c
      → c ≤ℤ max_int64
      → le (of_int c) x ≡ true
      → le (of_int (pos 0)) (subtract x (of_int c)) ≡ true
  pub product_nonneg :
      (x : F) (b : ℤ)
      → le (of_int (pos 0)) x ≡ true
      → pos 0 <ℤ b
      → b ≤ℤ max_int64
      → le (of_int (pos 0)) (multiply x (of_int b)) ≡ true
  pub quotient_nonneg :
      (x : F) (d : ℤ)
      → le (of_int (pos 0)) x ≡ true
      → pos 0 <ℤ d
      → d ≤ℤ max_int64
      → le (of_int (pos 0)) (divide x (of_int d)) ≡ true
  pub minimum_le : (n : ℤ) (x y : F) → le x y ≡ true → le (minimum (of_int n) y) (of_int n) ≡ true
  pub le_minimum :
      (n : ℤ) (x y : F)
      → le x (of_int n) ≡ true
      → le x y ≡ true
      → le x (minimum (of_int n) y) ≡ true
  -- The whole part of a number between 0 and an exact integer.
  pub floor_of_int : (n : ℤ) → pos 0 ≤ℤ n → n ≤ℤ max_exact → to_int (floor (of_int n)) ≡ n
  pub floor_le :
      (n : ℤ) (x : F)
      → le (of_int (pos 0)) x ≡ true
      → le x (of_int n) ≡ true
      → n ≤ℤ max_exact
      → to_int (floor x) ≤ℤ n
  pub le_floor :
      (c n : ℤ) (x : F)
      → pos 0 ≤ℤ c
      → c ≤ℤ max_exact
      → le (of_int (pos 0)) x ≡ true
      → le x (of_int n) ≡ true
      → n ≤ℤ max_exact
      → le (of_int c) x ≡ leb_ℤ c (to_int (floor x))
  -- An exact integer is subtracted without a rounding error, since the difference is no larger than
  -- `x` and a multiple of the last place of `x`.
  pub floor_subtract :
      (c n : ℤ) (x : F)
      → pos 0 ≤ℤ c
      → c ≤ℤ max_exact
      → le (of_int c) x ≡ true
      → le x (of_int n) ≡ true
      → n ≤ℤ max_exact
      → to_int (floor (subtract x (of_int c))) ≡ to_int (floor x) -ℤ c
  -- `maximum` is Lua's `math.max`, which drops a second argument that is no number.
  pub maximum_nonneg : (x : F) → le (of_int (pos 0)) (maximum (of_int (pos 0)) x) ≡ true
  -- Integers that are exact stay exact, and a quotient of small ones has the right whole part.
  pub multiply_exact :
      (a b : ℤ)
      → pos 0 ≤ℤ a
      → a ≤ℤ max_exact
      → pos 0 ≤ℤ b
      → b ≤ℤ max_exact
      → a *ℤ b ≤ℤ max_exact
      → multiply (of_int a) (of_int b) ≡ of_int (a *ℤ b)
  pub add_exact :
      (a b : ℤ)
      → pos 0 ≤ℤ a
      → pos 0 ≤ℤ b
      → a +ℤ b ≤ℤ max_exact
      → add (of_int a) (of_int b) ≡ of_int (a +ℤ b)
  pub floor_divide :
      (a : ℤ) (d : ℕ)
      → pos 0 ≤ℤ a
      → a ≤ℤ pos 1_000_000
      → 0 < d
      → floor (divide (of_int a) (of_int (pos d))) ≡ of_int (quot a d)
  pub ceil_quotient :
      (a : ℤ) (d : ℕ)
      → 1 < d
      → pos d ≤ℤ a
      → a ≤ℤ max_int64
      → (pos 1 ≤ℤ to_int (ceil (divide (of_int a) (of_int (pos d)))))
        × (to_int (ceil (divide (of_int a) (of_int (pos d)))) ≤ℤ max_int64)
  pub floor_whole :
      (n : ℤ) (x : F)
      → le (of_int (pos 0)) x ≡ true
      → le x (of_int n) ≡ true
      → n ≤ℤ max_exact
      → floor x ≡ of_int (to_int (floor x))
