-- ===== src/Floats/Whole.antt =====
-- Integers in place of doubles, to show that the laws can be met and to run tests: every operation is
-- exact but the division, which cuts off.
use rate_limiter_as_a_servic.Floats.{Float64}
use native.Mathlib.Nat.{le-div_iff_mul-le, div-le_self}
use rate_limiter_as_a_servic.Base.{
  ℤ, pos, quot, ◌*ℤ◌, leb_ℤ, ltb_ℤ, ◌+ℤ◌, ◌≤ℤ◌, ℕ, ◌<◌, if◌then◌else◌, pos_part, arith, ◌-ℤ◌, ◌<ℤ◌,
  ◌≡◌, negsuc, true, max_int64, not, leb_ℤ-true, int_laws, refl, max_ℤ, ◌≤◌, ◌/◌,
}

quot_nonneg : (x d : ℤ) → pos 0 ≤ℤ x → pos 0 <ℤ d → pos 0 ≤ℤ quot x (pos_part d)
unfolding quot
quot_nonneg (pos n) d h positive = omega arith
quot_nonneg (negsuc n) d h positive = absurd (omega arith)

pos_of_nonneg : (a : ℤ) → pos 0 ≤ℤ a → pos (pos_part a) ≡ a
pos_of_nonneg (pos n) h = refl
pos_of_nonneg (negsuc n) h = absurd (omega arith)

product_nonneg_ℤ : (a b : ℤ) → pos 0 ≤ℤ a → pos 0 ≤ℤ b → pos 0 ≤ℤ a *ℤ b
unfolding ◌*ℤ◌
product_nonneg_ℤ (pos a) (pos b) h k = ground arith
product_nonneg_ℤ (pos a) (negsuc b) h k = absurd (omega arith)
product_nonneg_ℤ (negsuc a) b h k = absurd (omega arith)

pub le_trans_ℤ : (a b c : ℤ) → leb_ℤ a b ≡ true → leb_ℤ b c ≡ true → leb_ℤ a c ≡ true
le_trans_ℤ a b c h k = ground arith

pub le_of_leb : (a b : ℤ) → leb_ℤ a b ≡ true → a ≤ℤ b
le_of_leb a b h = ground arith

abbrev pub min_ℤ : ℤ → ℤ → ℤ
min_ℤ a b = if leb_ℤ a b then a else b

pub min-le : (n y : ℤ) → leb_ℤ (min_ℤ n y) n ≡ true
min-le n y = ground arith

pub le_min : (n x y : ℤ) → leb_ℤ x n ≡ true → leb_ℤ x y ≡ true → leb_ℤ x (min_ℤ n y) ≡ true
le_min n x y h k = ground arith

pub lt_not_leb : (c x : ℤ) → ltb_ℤ x c ≡ not (leb_ℤ c x)
lt_not_leb c x = ground arith

pub leb_sum : (x y : ℤ) → leb_ℤ (pos 0) y ≡ true → leb_ℤ x (x +ℤ y) ≡ true
leb_sum x y h = leb_ℤ-true x (x +ℤ y) (omega (int_laws, le_of_leb (pos 0) y h))

pub leb_difference : (c x : ℤ) → pos 0 ≤ℤ c → leb_ℤ (x -ℤ c) x ≡ true
leb_difference c x h = leb_ℤ-true (x -ℤ c) x (omega int_laws)

pub difference_nonneg : (c x : ℤ) → leb_ℤ c x ≡ true → leb_ℤ (pos 0) (x -ℤ c) ≡ true
difference_nonneg c x h = leb_ℤ-true (pos 0) (x -ℤ c) (omega (int_laws, le_of_leb c x h))

pub product_leb : (a b : ℤ) → pos 0 ≤ℤ a → pos 0 ≤ℤ b → leb_ℤ (pos 0) (a *ℤ b) ≡ true
product_leb a b h k = leb_ℤ-true (pos 0) (a *ℤ b) (product_nonneg_ℤ a b h k)

pub quotient_leb :
    (x d : ℤ) → leb_ℤ (pos 0) x ≡ true → pos 0 <ℤ d → leb_ℤ (pos 0) (quot x (pos_part d)) ≡ true
quotient_leb x d h positive =
    leb_ℤ-true (pos 0) (quot x (pos_part d)) (quot_nonneg x d (le_of_leb (pos 0) x h) positive)

pub max_nonneg : (x : ℤ) → leb_ℤ (pos 0) (max_ℤ (pos 0) x) ≡ true
max_nonneg x = ground arith

pub weaken : (b : ℤ) → pos 0 <ℤ b → pos 0 ≤ℤ b
weaken b h = omega arith

pub quotient_positive : (a : ℤ) (d : ℕ) → 0 < d → pos d ≤ℤ a → pos 1 ≤ℤ quot a d
unfolding quot
quotient_positive (pos n) d h k =
    let found : 1 ≤ n / d = (le-div_iff_mul-le h).1 (omega arith) in omega arith
quotient_positive (negsuc n) d h k = absurd (omega arith)

pub quotient_bounds :
    (a : ℤ) (d : ℕ)
    → 1 < d
    → pos d ≤ℤ a
    → a ≤ℤ max_int64
    → (pos 1 ≤ℤ quot a d) × (quot a d ≤ℤ max_int64)
unfolding quot
quotient_bounds (pos n) d h k l =
    let found : n / d ≤ n = div-le_self n d in
    (quotient_positive (pos n) d (omega arith) k, omega arith)
quotient_bounds (negsuc n) d h k l = absurd (omega arith)

abbrev pub whole_numbers : Float64
whole_numbers = record {
  F = ℤ;
  of_int = λ n. n;
  to_int = λ x. x;
  add = ◌+ℤ◌;
  subtract = ◌-ℤ◌;
  multiply = ◌*ℤ◌;
  divide = λ x d. quot x (pos_part d);
  minimum = min_ℤ;
  maximum = max_ℤ;
  le = leb_ℤ;
  lt = ltb_ℤ;
  floor = λ x. x;
  ceil = λ x. x;
  le_trans = le_trans_ℤ;
  lt_not_le = λ c x h. lt_not_leb c x;
  of_int_mono = leb_ℤ-true;
  add_grows = λ x y h k. leb_sum x y k;
  subtract_shrinks = λ c x h h' k. leb_difference c x h;
  subtract_nonneg = λ c x h h' k. difference_nonneg c x k;
  product_nonneg = λ x b h k l. product_leb x b (le_of_leb (pos 0) x h) (weaken b k);
  quotient_nonneg = λ x d h k l. quotient_leb x d h k;
  minimum_le = λ n x y h. min-le n y;
  le_minimum = le_min;
  floor_of_int = λ n h k. refl;
  floor_le = λ n x h k e. le_of_leb x n k;
  le_floor = λ c n x h h' k k' e. refl;
  floor_subtract = λ c n x h h' k l e. refl;
  maximum_nonneg = max_nonneg;
  multiply_exact = λ a b h h' k k' e. refl;
  add_exact = λ a b h k e. refl;
  floor_divide = λ a d h k l. refl;
  ceil_quotient = λ a d h k l. quotient_bounds a d h k l;
  floor_whole = λ n x h k l. refl;
}
