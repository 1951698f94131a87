-- ===== src/Clock.antt =====
-- The parts of Go's package `time` that the program uses. A `time.Time` is an instant, the number
-- of nanoseconds since the zero `Time` (January 1, year 1, 00:00 UTC), which may be negative; a
-- `time.Duration` is a 64-bit count of nanoseconds. The range of an instant is taken to be
-- unbounded (Go's reaches 292 billion years). A monotonic clock reading is not modelled apart.
use native.Mathlib.Nat.{
  div-add-mod, mod-le, mod-lt, le_trans, le-div_iff_mul-le, div-mul-le_self, mul-le-mul_left,
  mul_comm, div-eq_of_lt-le,
}
use rate_limiter_as_a_servic.Base.{
  ℕ, ℤ, pos, negsuc, pos_part, ◌+ℤ◌, ◌-ℤ◌, ◌≤ℤ◌, ◌<ℤ◌, ◌<◌, ◌≤◌, ◌-◌, ◌%◌, leb_ℤ, ltb_ℤ, eqb_ℤ,
  quot, floor_mod, Bool, ◌≡◌, arith, if◌then◌else◌, max_int64, min_int64, +ℤ_parts, -ℤ_parts,
  int_laws, ◌+◌, eq_of_parts, ◌/◌, ap, ◌*◌, false, leb_ℤ-false, ◌*ℤ◌, ◌≢◌, max_ℤ,
}

abbrev pub Time : Type 0
Time = ℤ

abbrev pub Duration : Type 0
Duration = ℤ

-- `time.Time{}`
abbrev pub zero_time : Time
zero_time = pos 0

abbrev pub millisecond : Duration
millisecond = pos 1_000_000

abbrev pub second : Duration
second = pos 1_000_000_000

abbrev pub minute : Duration
minute = pos 60_000_000_000

-- January 1, 1970, 00:00 UTC.
abbrev pub unix_epoch : Time
unix_epoch = pos 62_135_596_800_000_000_000

-- `time.UnixMilli(ms)`
unfoldable pub unix_milli : ℤ → Time
unix_milli ms = unix_epoch +ℤ ms *ℤ millisecond

-- `t.After(u)`
abbrev pub after : Time → Time → Bool
after t u = ltb_ℤ u t

-- `t.Equal(u)`
abbrev pub equal : Time → Time → Bool
equal t u = eqb_ℤ t u

-- `t.Sub(u)`, which saturates.
unfoldable pub sub : Time → Time → Duration
sub t u =
    if ltb_ℤ (t -ℤ u) min_int64
    then min_int64
    else if ltb_ℤ max_int64 (t -ℤ u)
    then max_int64
    else t -ℤ u

-- `t.Truncate(d)`: down to a multiple of `d` since the zero `Time`.
unfoldable pub truncate : Time → Duration → Time
truncate t d = if leb_ℤ d (pos 0) then t else t -ℤ floor_mod t (pos_part d)

-- `d.Milliseconds()`
unfoldable pub milliseconds : Duration → ℤ
unfolding quot
milliseconds d = quot d 1_000_000

-- A difference that a `Duration` holds is exact.
pub sub_exact : (t u : Time) → min_int64 ≤ℤ (t -ℤ u) → (t -ℤ u) ≤ℤ max_int64 → sub t u ≡ t -ℤ u
unfolding sub
sub_exact t u lo hi = ground arith

pub sub-le-max : (t u : Time) → sub t u ≤ℤ max_int64
unfolding sub
sub-le-max t u = ground arith

-- To compare a difference with a `Duration` the saturation does not matter.
pub sub_lt_iff :
    (t u : Time) (d : Duration)
    → min_int64 <ℤ d
    → d ≤ℤ max_int64
    → ltb_ℤ (sub t u) d ≡ ltb_ℤ t (u +ℤ d)
unfolding sub
sub_lt_iff t u d lo hi = ground (arith, -ℤ_parts t u, +ℤ_parts u d)

-- A remainder by a positive number lies below it, and the number less its remainder is a multiple.
floor_mod_bounds : (t : ℤ) (n : ℕ) → 0 < n → (pos 0 ≤ℤ floor_mod t n) × (floor_mod t n <ℤ pos n)
unfolding floor_mod
floor_mod_bounds (pos m) n h = (omega arith, grind arith)
floor_mod_bounds (negsuc m) n h = (omega arith, grind arith)

module _ (t : Time) (d : Duration) (positive : pos 0 <ℤ d) where
  pub truncate-le : truncate t d ≤ℤ t
  unfolding truncate
  truncate-le =
      ground (arith, floor_mod_bounds t (pos_part d), -ℤ_parts t (floor_mod t (pos_part d)))

  pub lt-truncate-add : t <ℤ truncate t d +ℤ d
  unfolding truncate
  lt-truncate-add = ground (
    arith,
    floor_mod_bounds t (pos_part d),
    -ℤ_parts t (floor_mod t (pos_part d)),
    +ℤ_parts (truncate t d) d,
  )

-- The multiples of `n` below two numbers are in the order of the numbers.
multiple_mono : (n a b : ℕ) → 0 < n → a ≤ b → a - a % n ≤ b - b % n
multiple_mono n a b positive h =
    let quotients = (le-div_iff_mul-le positive).1 (le_trans (div-mul-le_self a n) h) in
    omega (arith, div-add-mod a n, div-add-mod b n, mul-le-mul_left n quotients)

floor_mono : (t u : ℤ) (n : ℕ) → 0 < n → t ≤ℤ u → t -ℤ floor_mod t n ≤ℤ u -ℤ floor_mod u n
unfolding floor_mod
floor_mono (pos a) (pos b) n positive h =
    omega (int_laws, multiple_mono n a b positive (omega arith), mod-le a n, mod-le b n)
floor_mono (pos a) (negsuc b) n positive h = absurd (omega arith)
floor_mono (negsuc a) (pos b) n positive h = omega (int_laws, mod-le b n)
floor_mono (negsuc a) (negsuc b) n positive h = omega (
  int_laws,
  multiple_mono n b a positive (omega arith),
  mod-le a n,
  mod-le b n,
  mod-lt a positive,
  mod-lt b positive,
)

pub truncate_mono : (t u : Time) (d : Duration) → pos 0 <ℤ d → t ≤ℤ u → truncate t d ≤ℤ truncate u d
unfolding truncate
truncate_mono t u d positive h = ground (arith, floor_mono t u (pos_part d))

multiple_unique : (n a b : ℕ) → 0 < n → a - a % n ≤ b → b < a - a % n + n → b - b % n ≡ a - a % n
multiple_unique n a b positive lo hi =
    let whole = div-add-mod a n in
    let turned = mul_comm n (a / n) in
    let quotients : b / n ≡ a / n =
      div-eq_of_lt-le n (omega (arith, whole, turned)) (omega (arith, whole, turned)) in
    omega (arith, whole, div-add-mod b n, ap (λ q. n * q) quotients)

floor_unique :
    (t u : ℤ) (n : ℕ)
    → 0 < n
    → t -ℤ floor_mod t n ≤ℤ u
    → u <ℤ t -ℤ floor_mod t n +ℤ pos n
    → u -ℤ floor_mod u n ≡ t -ℤ floor_mod t n
unfolding floor_mod
floor_unique (pos a) (pos b) n positive lo hi = eq_of_parts _ _ (
    omega (
      int_laws,
      multiple_unique n a b positive (omega (int_laws, mod-le a n)) (omega (int_laws, mod-le a n)),
      mod-le a n,
      mod-le b n,
    ))
floor_unique (pos a) (negsuc b) n positive lo hi = absurd (omega (int_laws, mod-le a n))
floor_unique (negsuc a) (pos b) n positive lo hi =
    absurd (omega (int_laws, mod-le a n, mod-lt a positive))
floor_unique (negsuc a) (negsuc b) n positive lo hi = eq_of_parts _ _ (
    omega (
      int_laws,
      multiple_unique n a b positive (omega (int_laws, mod-le a n, mod-lt a positive))
          (omega (int_laws, mod-le a n, mod-lt a positive)),
      mod-le a n,
      mod-le b n,
      mod-lt a positive,
      mod-lt b positive,
    ))

-- An instant within a window has that window's start.
pub truncate_unique :
    (t u : Time) (d : Duration)
    → pos 0 <ℤ d
    → truncate t d ≤ℤ u
    → u <ℤ truncate t d +ℤ d
    → truncate u d ≡ truncate t d
unfolding truncate
truncate_unique t u (pos n) positive lo hi =
    let whole : leb_ℤ (pos n) (pos 0) ≡ false = leb_ℤ-false (pos n) (pos 0) positive in
    rw whole (floor_unique t u n (omega arith) (rw whole at lo) (rw whole at hi))
truncate_unique t u (negsuc n) positive lo hi = absurd (omega arith)

-- A wait in whole milliseconds, rounded down but at least one, ends before a longer wait does that
-- is no whole number of milliseconds.
pub whole_milliseconds-lt :
    (wait : Duration)
    → millisecond ≤ℤ wait
    → floor_mod wait 1_000_000 ≢ pos 0
    → let slept = max_ℤ (pos 1) (milliseconds wait) *ℤ millisecond in
      (pos 0 ≤ℤ slept) × (slept <ℤ wait)
unfolding milliseconds quot floor_mod ◌*ℤ◌
whole_milliseconds-lt (pos n) long broken = (ground arith, ground arith)
whole_milliseconds-lt (negsuc n) long broken = absurd (omega arith)
