-- ===== src/Base/Int64.antt =====
-- The 64-bit signed words of Go (`int` on 64-bit platforms, `int64`, `time.Duration`): arithmetic
-- wraps around modulo 2^64.
use Prim.Native.Nat.{◌^◌}
use mathlib.Core.Path.{◌≡◌}
use mathlib.Core.Bool.{Bool, ◌&&◌}
use native.Mathlib.Omega.{arith}
use rate_limiter_as_a_servic.Base.Tests.{if◌then◌else◌}
use rate_limiter_as_a_servic.Base.Int.{ℤ, pos, negsuc, ◌+ℤ◌, ◌-ℤ◌, ◌*ℤ◌, ◌≤ℤ◌, leb_ℤ, floor_mod}

abbrev pub max_int64 : ℤ
max_int64 = pos 0x7fff_ffff_ffff_ffff

abbrev pub min_int64 : ℤ
min_int64 = negsuc 0x7fff_ffff_ffff_ffff

abbrev pub is_int64 : ℤ → Bool
is_int64 z = leb_ℤ min_int64 z && leb_ℤ z max_int64

-- A value that a 64-bit word holds.
abbrev pub InRange : ℤ → Type 0
InRange z = (min_int64 ≤ℤ z) × (z ≤ℤ max_int64)

-- The word that the low 64 bits of `z` stand for.
unfoldable pub wrap64 : ℤ → ℤ
unfolding ◌+ℤ◌ ◌-ℤ◌ floor_mod
wrap64 z = if is_int64 z then z else floor_mod (z -ℤ min_int64) (2 ^ 64) +ℤ min_int64

unfoldable pub add64 : ℤ → ℤ → ℤ
unfolding wrap64
add64 a b = wrap64 (a +ℤ b)

unfoldable pub sub64 : ℤ → ℤ → ℤ
unfolding wrap64
sub64 a b = wrap64 (a -ℤ b)

unfoldable pub mul64 : ℤ → ℤ → ℤ
unfolding wrap64 ◌*ℤ◌
mul64 a b = wrap64 (a *ℤ b)

-- Within the range nothing wraps.
pub wrap64-id : (z : ℤ) → InRange z → wrap64 z ≡ z
unfolding wrap64
wrap64-id z (lo, hi) = ground arith

pub add64_exact : (a b : ℤ) → InRange (a +ℤ b) → add64 a b ≡ a +ℤ b
unfolding add64
add64_exact a b h = wrap64-id (a +ℤ b) h

pub sub64_exact : (a b : ℤ) → InRange (a -ℤ b) → sub64 a b ≡ a -ℤ b
unfolding sub64
sub64_exact a b h = wrap64-id (a -ℤ b) h
