-- ===== src/TokenBucket/Quota.antt =====
-- What the token-bucket limiter promises, against the history of answers.
use rate_limiter_as_a_servic.Clock.{Time}
use rate_limiter_as_a_servic.History.{Request, exec, spent}
use rate_limiter_as_a_servic.Limiter.{Policy, Key, key_eq, Decision, ok, Result}
use rate_limiter_as_a_servic.Floats.{Float64}
use rate_limiter_as_a_servic.TokenBucket.{
  TokenBucketRateLimiter, refilled_bucket, refilled_from, whole_tokens, decide, step, fresh, Policy,
  Key, Request, Time, milliseconds_rounded_up, duration_for_tokens,
}
use rate_limiter_as_a_servic.TokenBucket.Refill.{
  IsCountable, Fits, left_in, refilled_from-Within, whole_tokens-bounds,
}
use rate_limiter_as_a_servic.TokenBucket.Exact.{
  decide_exact, step_considered, spent-Within, denial, approval,
}
use rate_limiter_as_a_servic.TokenBucket.Conserved.{exec-Inv, exec-conserved, ever}
use rate_limiter_as_a_servic.TokenBucket.Reference.{tokens_at, bucket_after, came_back}
use rate_limiter_as_a_servic.TokenBucket.Follows.{
  exec-bucket_after, gained-came_back, refilled_from-tokens_at,
}
use rate_limiter_as_a_servic.Base.{
  ℤ, pos, Dict, ◌≤ℤ◌, List, arith, some, lookup, ◌≡◌, none, ◌<ℤ◌, ◌+ℤ◌, ◌-ℤ◌, leb_ℤ, if◌then◌else◌,
  max_ℤ, inl, true, ap, inr, ◌∙◌, sym, subst, refl, leb_ℤ-true, leb_ℤ-false, ◌⊎◌,
}

le_max : (a b : ℤ) → a ≤ℤ max_ℤ a b
le_max a b = ground arith

module _ (N : Float64) where
  open N use {F, of_int, subtract, floor, to_int}

  -- For a key with a valid policy whose limit is at most 2^53 and for every history, also one in
  -- which the clock goes back: the cost that the key has been allowed and the whole tokens that are
  -- left in its bucket are together the limit and the whole tokens that have come back at the key's
  -- requests, at the rate of the limit in each window and up to the limit, as the history of requests
  -- and answers tells; and what is left is between zero and the limit.
  pub spent_conserved :
      (key : Key) (p : Policy) (policies : Dict Key Policy) (rs : List Request)
      → IsCountable p
      → lookup key policies ≡ some p
      → let (l, log) = exec (step N) (fresh N policies) rs in
        let left = left_in N p (lookup key l.buckets) in
        (spent key ever log +ℤ left ≡ p.limit +ℤ came_back N p key log)
        × (pos 0 ≤ℤ left)
        × (left ≤ℤ p.limit)
  spent_conserved key p policies rs c known =
      let (conserved, lo, hi) = exec-conserved N key p c policies rs known in
      let same = ap (λ g. p.limit +ℤ g) (gained-came_back N p key policies c known rs) in
      (conserved ∙ same, lo, hi)

  abbrev request : Key → Time → ℤ → Request
  request key now cost = record { at = now; ctx_err = none; key = key; cost = cost }

  -- The answer of a limiter whose bucket has `whole` tokens now.
  abbrev pub IsAnswer : Policy → ℤ → ℤ → Result Decision → Type 0
  IsAnswer p cost whole answer =
      (d : Decision) × (answer ≡ ok d)
      × (d.allowed ≡ leb_ℤ cost whole)
      × (d.remaining ≡ (if d.allowed then whole -ℤ cost else whole))
      × (pos 0 ≤ℤ d.remaining)
      × (d.remaining ≤ℤ p.limit)
      × ((d.allowed ≡ true) ⊎ (pos 1 ≤ℤ d.retry_after_ms))

  now-IsAnswer :
      (l : TokenBucketRateLimiter F) (key : Key) (p : Policy) (now : Time) (cost : ℤ)
      → IsCountable p
      → lookup key l.policies ≡ some p
      → Fits N p (lookup key l.buckets)
      → pos 0 <ℤ cost
      → cost ≤ℤ p.limit
      → IsAnswer p cost
          (whole_tokens N (refilled_from N (lookup key l.buckets) p now).tokens)
          (step N l (request key now cost)).0
  unfolding refilled_bucket
  now-IsAnswer l key p now cost c known fits positive small =
      let bucket = refilled_from N (lookup key l.buckets) p now in
      let whole = whole_tokens N bucket.tokens in
      let within = refilled_from-Within N p (lookup key l.buckets) now c.valid fits in
      let (lo, hi) = whole_tokens-bounds N p bucket.tokens c within in
      let reached : step N l (request key now cost) ≡ decide N l key p now cost =
        elim (step_considered N l (request key now cost) p known) [
          | inl (reaches, _, _, same) ↦ same
          | inr (other, refused, same) ↦ absurd (ground arith)
        ] in
      elim (decide_exact N l key p now cost c fits positive small) [
        | inl (fit, e) ↦
            let (after, less) =
              spent-Within N p bucket.tokens cost c within (omega (arith, positive)) small fit in
            let (lo', hi') =
              whole_tokens-bounds N p (subtract bucket.tokens (of_int cost)) c after in
            (
              approval N p (subtract bucket.tokens (of_int cost)) now,
              ap (λ x. x.0) (reached ∙ e),
              sym (leb_ℤ-true cost whole fit),
              less,
              lo',
              hi',
              inl refl,
            )
        | inr (over, e) ↦ (
          denial N p bucket now cost,
          ap (λ x. x.0) (reached ∙ e),
          sym (leb_ℤ-false cost whole over),
          refl,
          lo,
          hi,
          inr (
              le_max (pos 1) (
                milliseconds_rounded_up N
                  (duration_for_tokens N p (subtract (of_int cost) bucket.tokens)))),
        )
      ]

  -- For a key with a valid policy whose limit is at most 2^53, the answer to a request with a
  -- positive cost within the limit follows from the history of requests and answers alone: the
  -- tokens at this instant are the limit for a key that has asked for nothing, and else those that
  -- the last request has left and what has come back since, at the rate of the limit in each window
  -- and up to the limit. The request is allowed exactly if their whole part covers its cost. The
  -- answer reports what is left after it, a number between zero and the limit, and a denied request
  -- is told to wait for at least a millisecond.
  pub step-IsAnswer :
      (key : Key) (p : Policy) (policies : Dict Key Policy) (rs : List Request) (now : Time)
      (cost : ℤ)
      → IsCountable p
      → lookup key policies ≡ some p
      → pos 0 <ℤ cost
      → cost ≤ℤ p.limit
      → let (l, log) = exec (step N) (fresh N policies) rs in
        let r : Request = record { at = now; ctx_err = none; key = key; cost = cost } in
        let tokens = tokens_at N p (bucket_after N p key log) now in
        IsAnswer p cost (to_int (floor tokens)) (step N l r).0
  unfolding whole_tokens
  step-IsAnswer key p policies rs now cost c known positive small =
      let i = exec-Inv N key p c policies rs known in
      let (l, log) = exec (step N) (fresh N policies) rs in
      let slot = lookup key l.buckets in
      let tokens : (refilled_from N slot p now).tokens
          ≡ tokens_at N p (bucket_after N p key log) now =
        ap (λ b. b.tokens) (refilled_from-tokens_at N p slot now)
        ∙ ap (λ b. tokens_at N p b now) (exec-bucket_after N p key policies c known rs) in
      subst (λ x. IsAnswer p cost (to_int (floor x)) (step N l (request key now cost)).0) tokens
        (now-IsAnswer l key p now cost c i.known i.fits positive small)
