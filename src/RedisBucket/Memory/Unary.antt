-- ===== src/RedisBucket/Memory/Unary.antt =====
-- `ParseInt` for numbers in unary, as the tests' Redis writes them.
use rate_limiter_as_a_servic.Limiter.{Result, ok}
use rate_limiter_as_a_servic.Floats.Whole.{whole_numbers}
use rate_limiter_as_a_servic.RedisBucket.Memory.{
  in_memory, in_unary, tonumber, tonumber-unary, unary, size,
}
use rate_limiter_as_a_servic.RedisBucket.Recorded.{Reads}
use text.Mathlib.Text.{◌==◌ as str_eq}
use text.Mathlib.TextEquality.{eq_iff}
use rate_limiter_as_a_servic.Base.{
  ℤ, pos, negsuc, ℕ, zero, suc, String, ◌≡◌, false, Bool-cases, inl, inr, ap, refl, arith,
}

abbrev pub parse_unary : String → Result ℤ
parse_unary t = ok (tonumber t)

unary_filled : (n : ℕ) → str_eq (unary n) "" ≡ false
unary_filled zero = refl
unary_filled (suc n) = elim (Bool-cases (str_eq (unary (suc n)) "")) [
  | inl same ↦
      let sizes : ◌≡◌ {A = ℕ} (suc (size (unary n))) 0 =
        ap size ((eq_iff (unary (suc n)) "").0 same) in
      absurd (omega arith)
  | inr filled ↦ filled
]

pub reads_unary : Reads whole_numbers in_unary in_memory parse_unary
reads_unary (pos n) lo hi = (ap ok (tonumber-unary n), unary_filled n)
reads_unary (negsuc n) lo hi = absurd (omega arith)
