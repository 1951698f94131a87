-- ===== src/TokenBucket/Refill.antt =====
-- The tokens of a bucket stay between zero and the limit, and time only adds to them.
use rate_limiter_as_a_servic.Limiter.{Policy, IsValid}
use rate_limiter_as_a_servic.Floats.{Float64, max_exact}
use rate_limiter_as_a_servic.TokenBucket.{Bucket, refill, refilled_from, whole_tokens, Policy}
use rate_limiter_as_a_servic.Clock.{sub, Duration, Time, sub-le-max}
use rate_limiter_as_a_servic.Base.{
  ℤ, pos, ◌≡◌, true, Option, ◌≤ℤ◌, some, max_int64, arith, ≤ℤ_or_<, none, inl, leb_ℤ-true, inr,
  leb_ℤ-false,
}

-- A valid policy whose limit a double can count.
pub record IsCountable (p : Policy) : Type 0 where
  pub valid : IsValid p
  pub limit_exact : p.limit ≤ℤ max_exact

module _ (N : Float64) where
  open N use {F, of_int, le, floor, to_int, add, multiply, divide}

  abbrev pub Within : ℤ → F → Type 0
  Within n x = (le (of_int (pos 0)) x ≡ true) × (le x (of_int n) ≡ true)

  -- What a stored bucket may hold.
  abbrev pub Fits : Policy → Option (Bucket F) → Type 0
  Fits p none = Unit
  Fits p (some bucket) = Within p.limit bucket.tokens

  -- The whole tokens that a key can spend; a key without a bucket has all of them.
  abbrev pub left_in : Policy → Option (Bucket F) → ℤ
  left_in p none = p.limit
  left_in p (some bucket) = whole_tokens N bucket.tokens

  -- What is added to tokens, up to a limit.
  pub capped-Within :
      (n : ℤ) (tokens gain : F)
      → le (of_int (pos 0)) gain ≡ true
      → Within n tokens
      → let sum = N.minimum (of_int n) (add tokens gain) in Within n sum × (le tokens sum ≡ true)
  capped-Within n tokens gain more (nonneg, below) =
      let sum : le tokens (add tokens gain) ≡ true = N.add_grows tokens gain nonneg more in
      let kept = N.le_minimum n tokens (add tokens gain) below sum in
      (
        (
          N.le_trans (of_int (pos 0)) tokens (N.minimum (of_int n) (add tokens gain)) nonneg kept,
          N.minimum_le n tokens (add tokens gain) sum,
        ),
        kept,
      )

  pub refill-Within :
      (p : Policy) (tokens : F) (elapsed : Duration)
      → IsValid p
      → pos 0 ≤ℤ elapsed
      → elapsed ≤ℤ max_int64
      → Within p.limit tokens
      → Within p.limit (refill N p tokens elapsed) × (le tokens (refill N p tokens elapsed) ≡ true)
  unfolding refill
  refill-Within p tokens elapsed v lo hi within =
      capped-Within p.limit tokens
        (divide (multiply (of_int elapsed) (of_int p.limit)) (of_int p.window))
        (N.quotient_nonneg (multiply (of_int elapsed) (of_int p.limit)) p.window
          (N.product_nonneg (of_int elapsed) p.limit (N.of_int_mono (pos 0) elapsed lo)
            v.limit_positive v.limit_word)
          v.window_positive v.window_word)
        within

  pub refilled_from-Within :
      (p : Policy) (slot : Option (Bucket F)) (now : Time)
      → IsValid p
      → Fits p slot
      → Within p.limit (refilled_from N slot p now).tokens
  unfolding refilled_from
  refilled_from-Within p none now v fits = (
    N.of_int_mono (pos 0) p.limit (omega (arith, v.limit_positive)),
    N.of_int_mono p.limit p.limit (omega arith),
  )
  refilled_from-Within p (some bucket) now v fits =
      let elapsed = sub now bucket.last_refill in
      elim (≤ℤ_or_< elapsed (pos 0)) [
        | inl still ↦ rw (leb_ℤ-true elapsed (pos 0) still) fits
        | inr passed ↦
            rw (leb_ℤ-false elapsed (pos 0) passed)
              (refill-Within p bucket.tokens elapsed v (omega arith)
                (sub-le-max now bucket.last_refill) fits).0
      ]

  -- Whole tokens lie between zero and the limit.
  pub whole_tokens-bounds :
      (p : Policy) (x : F)
      → IsCountable p
      → Within p.limit x
      → (pos 0 ≤ℤ whole_tokens N x) × (whole_tokens N x ≤ℤ p.limit)
  unfolding whole_tokens
  whole_tokens-bounds p x c (lo, hi) =
      let known = N.le_floor (pos 0) p.limit x (omega arith) (omega arith) lo hi c.limit_exact in
      (ground arith, N.floor_le p.limit x lo hi c.limit_exact)
