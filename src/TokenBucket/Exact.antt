-- ===== src/TokenBucket/Exact.antt =====
-- `decide` in whole tokens: under the invariant the comparison of doubles is one of integers.
use rate_limiter_as_a_servic.Clock.{Time}
use rate_limiter_as_a_servic.History.{Request, has_ended, is_allowed}
use rate_limiter_as_a_servic.Limiter.{Policy, Key, Decision, IsValid, ok, key_eq}
use rate_limiter_as_a_servic.Floats.{Float64}
use rate_limiter_as_a_servic.TokenBucket.{
  Bucket, TokenBucketRateLimiter, refilled_bucket, whole_tokens, decide, duration_for_tokens,
  milliseconds_rounded_up, allow, step, Policy, Key, Request, Time,
}
use rate_limiter_as_a_servic.TokenBucket.Refill.{IsCountable, Within, Fits, refilled_from-Within}
use rate_limiter_as_a_servic.Base.{
  ℤ, pos, ◌≤ℤ◌, Bool, lookup, insert, ◌≡◌, ◌<ℤ◌, not, false, true, leb_ℤ, ◌-ℤ◌, some, ◌∙◌, arith,
  ◌⊎◌, ◌&&◌, ◌+ℤ◌, max_ℤ, ap, leb_ℤ-true, ≤ℤ_or_<, ltb_ℤ, inl, Bool-cases, inr, Option-cases,
  leb_ℤ-false, refl,
}

module _ (N : Float64) where
  open N use {F, of_int, lt, le, subtract, floor, to_int}

  -- The answers of `decide`.
  abbrev pub denial : Policy → Bucket F → Time → ℤ → Decision
  denial p bucket now cost = record {
    allowed = false;
    limit = p.limit;
    remaining = whole_tokens N bucket.tokens;
    reset_at = now +ℤ duration_for_tokens N p (subtract (of_int p.limit) bucket.tokens);
    retry_after_ms = max_ℤ (pos 1) (
        milliseconds_rounded_up N (duration_for_tokens N p (subtract (of_int cost) bucket.tokens)));
  }

  abbrev pub approval : Policy → F → Time → Decision
  approval p tokens now = record {
    allowed = true;
    limit = p.limit;
    remaining = whole_tokens N tokens;
    reset_at = now +ℤ duration_for_tokens N p (subtract (of_int p.limit) tokens);
    retry_after_ms = pos 0;
  }

  abbrev pub stored : TokenBucketRateLimiter F → Key → F → Time → TokenBucketRateLimiter F
  stored l key tokens last_refill = record l {
    buckets = insert key (record { tokens = tokens; last_refill = last_refill }) l.buckets;
  }

  pub lt_whole :
      (p : Policy) (x : F) (cost : ℤ)
      → IsCountable p
      → Within N p.limit x
      → pos 0 ≤ℤ cost
      → cost ≤ℤ p.limit
      → lt x (of_int cost) ≡ not (leb_ℤ cost (whole_tokens N x))
  unfolding whole_tokens
  lt_whole p x cost c (lo, hi) positive small =
      N.lt_not_le cost x lo
      ∙ ap not
          (N.le_floor cost p.limit x positive (omega (arith, c.limit_exact)) lo hi c.limit_exact)

  -- What is left once a cost is taken.
  pub spent-Within :
      (p : Policy) (x : F) (cost : ℤ)
      → IsCountable p
      → Within N p.limit x
      → pos 0 ≤ℤ cost
      → cost ≤ℤ p.limit
      → cost ≤ℤ whole_tokens N x
      → Within N p.limit (subtract x (of_int cost))
        × (whole_tokens N (subtract x (of_int cost)) ≡ whole_tokens N x -ℤ cost)
  unfolding whole_tokens
  spent-Within p x cost c (lo, hi) positive small fit =
      let covered : le (of_int cost) x ≡ true =
        N.le_floor cost p.limit x positive (omega (arith, c.limit_exact)) lo hi c.limit_exact
        ∙ leb_ℤ-true cost (to_int (floor x)) fit in
      (
        (
          N.subtract_nonneg cost x positive (omega (arith, c.limit_exact)) covered,
          N.le_trans (subtract x (of_int cost)) x (of_int p.limit)
              (N.subtract_shrinks cost x positive (omega (arith, c.limit_exact)) covered) hi,
        ),
        N.floor_subtract cost p.limit x positive (omega (arith, c.limit_exact)) covered hi
            c.limit_exact,
      )

  module _ (l : TokenBucketRateLimiter F) (key : Key) (p : Policy) (now : Time) (cost : ℤ) where
    pub refilled_bucket-Within :
        IsValid p
        → Fits N p (lookup key l.buckets)
        → Within N p.limit (refilled_bucket N l key p now).tokens
    unfolding refilled_bucket
    refilled_bucket-Within v fits = refilled_from-Within N p (lookup key l.buckets) now v fits

    -- A call takes the cost from the bucket if its whole tokens cover it, and else only refills.
    pub decide_exact :
        IsCountable p
        → Fits N p (lookup key l.buckets)
        → pos 0 <ℤ cost
        → cost ≤ℤ p.limit
        → let bucket = refilled_bucket N l key p now in
          ((cost ≤ℤ whole_tokens N bucket.tokens)
            × (decide N l key p now cost ≡ (
              ok (approval p (subtract bucket.tokens (of_int cost)) now),
              stored l key (subtract bucket.tokens (of_int cost)) bucket.last_refill,
            )))
          ⊎ ((whole_tokens N bucket.tokens <ℤ cost)
              × (decide N l key p now cost
                  ≡ (ok (denial p bucket now cost), stored l key bucket.tokens bucket.last_refill)))
    unfolding decide
    decide_exact c fits positive small =
        let bucket = refilled_bucket N l key p now in
        let whole = whole_tokens N bucket.tokens in
        let test =
          lt_whole p bucket.tokens cost c (refilled_bucket-Within c.valid fits)
            (omega (arith, positive)) small in
        elim (≤ℤ_or_< cost whole) [
          | inl fit ↦ inl (fit, rw (test, leb_ℤ-true cost whole fit) refl)
          | inr over ↦ inr (over, rw (test, leb_ℤ-false cost whole over) refl)
        ]

  -- The requests that reach the bucket.
  abbrev pub is_considered : Policy → Request → Bool
  is_considered p r = not (has_ended r.ctx_err) && (ltb_ℤ (pos 0) r.cost && leb_ℤ r.cost p.limit)

  pub step_considered :
      (l : TokenBucketRateLimiter F) (r : Request) (p : Policy)
      → lookup r.key l.policies ≡ some p
      → ((is_considered p r ≡ true)
          × (pos 0 <ℤ r.cost)
          × (r.cost ≤ℤ p.limit)
          × (step N l r ≡ decide N l r.key p r.at r.cost))
        ⊎ ((is_considered p r ≡ false) × (is_allowed (step N l r).0 ≡ false) × ((step N l r).1 ≡ l))
  unfolding allow
  step_considered l r p known = elim (Bool-cases (is_considered p r)) [
    | inl reaches ↦ elim (Option-cases r.ctx_err) [
      | inl live ↦ inl (reaches, ground arith, ground arith, ground arith)
      | inr (e, done) ↦ absurd (ground arith)
    ]
    | inr other ↦ elim (Option-cases r.ctx_err) [
      | inl live ↦ inr (other, ground arith, ground arith)
      | inr (e, done) ↦ inr (other, ground arith, ground arith)
    ]
  ]
