-- ===== src/TokenBucket/Conserved.antt =====
-- What the history has drawn from a key's bucket and what is left there are the limit and what time
-- has added.
use rate_limiter_as_a_servic.Limiter.{Policy, Key, key_beq, key_eq, Result, Decision, key_beq_iff}
use rate_limiter_as_a_servic.History.{
  Request, is_allowed, exec, charge, spent, charge_refused, charge_other,
}
use rate_limiter_as_a_servic.Clock.{Time}
use rate_limiter_as_a_servic.Floats.{Float64}
use rate_limiter_as_a_servic.TokenBucket.{
  Bucket, TokenBucketRateLimiter, refilled_bucket, refilled_from, whole_tokens, decide, allow, step,
  fresh, Time, Request, Policy, Key,
}
use rate_limiter_as_a_servic.TokenBucket.Refill.{
  IsCountable, Fits, left_in, refilled_from-Within, whole_tokens-bounds,
}
use rate_limiter_as_a_servic.TokenBucket.Exact.{
  decide_exact, step_considered, is_considered, spent-Within,
}
use rate_limiter_as_a_servic.Base.{
  ℤ, pos, Bool, ◌≡◌, Option, none, Dict, lookup, ◌<ℤ◌, true, arith, false, ◌-ℤ◌, List, some, ◌≤ℤ◌,
  ◌+ℤ◌, lookup-insert, ◌∷◌, zero-+ℤ, if◌then◌else◌, ◌&&◌, inl, lookup-insert_self, [], inr,
  eq_of_parts, int_laws, Bool-cases, ap, pos_part, sym, neg_part, refl, ◌∙◌,
}

-- Every instant counts.
abbrev pub ever : Time → Bool
ever t = true

-- What is taken and what is left, once `whole` tokens are in the bucket.
balance :
    (taken total left whole limit added : ℤ)
    → total +ℤ left ≡ limit +ℤ added
    → taken +ℤ total +ℤ (whole -ℤ taken) ≡ limit +ℤ ((whole -ℤ left) +ℤ added)
balance taken total left whole limit added h =
    eq_of_parts _ _ (omega (int_laws, ap pos_part h, ap neg_part h))

add_zero : (a : ℤ) → a +ℤ pos 0 ≡ a
add_zero a = eq_of_parts _ _ (omega int_laws)

balance_refilled :
    (total left whole limit added : ℤ)
    → total +ℤ left ≡ limit +ℤ added
    → pos 0 +ℤ total +ℤ whole ≡ limit +ℤ ((whole -ℤ left) +ℤ added)
balance_refilled total left whole limit added h =
    eq_of_parts _ _ (omega (int_laws, ap pos_part h, ap neg_part h))

module _ (N : Float64) where
  open N use {F, of_int, le, subtract, floor, to_int}

  step-policies :
      (l : TokenBucketRateLimiter F) (r : Request) → (step N l r).1.policies ≡ l.policies
  unfolding allow decide
  step-policies l r = ground arith

  pub step-buckets_other :
      (l : TokenBucketRateLimiter F) (r : Request) (key : Key)
      → key_beq key r.key ≡ false
      → lookup key (step N l r).1.buckets ≡ lookup key l.buckets
  unfolding allow decide
  step-buckets_other l r key other = grind (arith, lookup-insert)

  -- The whole tokens that the time since the last decision adds to a key's bucket.
  abbrev pub gain : Policy → Option (Bucket F) → Time → ℤ
  gain p slot now = whole_tokens N (refilled_from N slot p now).tokens -ℤ left_in N p slot

  -- What time has added over a history, at the key's requests that reach the bucket.
  unfoldable pub gained : Key → Policy → Dict Key Policy → List Request → ℤ
  gained key p policies [] = pos 0
  gained key p policies (r ∷ older) =
      (if key_beq key r.key && is_considered N p r
        then gain p (lookup key (exec (step N) (fresh N policies) older).0.buckets) r.at
        else pos 0)
      +ℤ gained key p policies older

  module _ (key : Key) (p : Policy) (c : IsCountable p) where
    -- The key's bucket after a history that has drawn `total` while time has added `added`.
    pub record Inv (total added : ℤ) (l : TokenBucketRateLimiter F) : Type 0 where
      pub known : lookup key l.policies ≡ some p
      pub fits : Fits N p (lookup key l.buckets)
      pub conserved : total +ℤ left_in N p (lookup key l.buckets) ≡ p.limit +ℤ added

    same-Inv :
        (l l' : TokenBucketRateLimiter F) (total total' added : ℤ)
        → Inv total added l
        → l'.policies ≡ l.policies
        → lookup key l'.buckets ≡ lookup key l.buckets
        → total' ≡ total
        → Inv total' (pos 0 +ℤ added) l'
    same-Inv l l' total total' added i policies buckets same = record {
      known = rw policies i.known;
      fits = rw buckets i.fits;
      conserved = rw (buckets, same, zero-+ℤ) i.conserved;
    }

    -- A request that reaches the bucket, from the drawn cost on.
    decided-Inv :
        (l : TokenBucketRateLimiter F) (total added cost : ℤ) (now : Time)
        → Inv total added l
        → pos 0 <ℤ cost
        → cost ≤ℤ p.limit
        → let (answer, l') = decide N l key p now cost in
          Inv
            ((if is_allowed answer then cost else pos 0) +ℤ total)
            (gain p (lookup key l.buckets) now +ℤ added)
            l'
    unfolding refilled_bucket
    decided-Inv l total added cost now i positive small =
        let slot = lookup key l.buckets in
        let bucket = refilled_from N slot p now in
        let within = refilled_from-Within N p slot now c.valid i.fits in
        elim (decide_exact N l key p now cost c i.fits positive small) [
          | inl (fit, e) ↦
              let (after, whole) =
                spent-Within N p bucket.tokens cost c within (omega (arith, positive)) small fit in
              rw e (record {
                known = i.known;
                fits = rw lookup-insert_self after;
                conserved =
                    rw (lookup-insert_self, whole)
                      (balance cost total (left_in N p slot) (whole_tokens N bucket.tokens) p.limit
                        added i.conserved);
              })
          | inr (over, e) ↦ rw e (record {
            known = i.known;
            fits = rw lookup-insert_self within;
            conserved = rw lookup-insert_self (
                balance_refilled total (left_in N p slot) (whole_tokens N bucket.tokens) p.limit
                  added i.conserved);
          })
        ]

    charge_decided :
        (r : Request) (answer : Result Decision)
        → key_beq key r.key ≡ true
        → charge key ever r answer ≡ (if is_allowed answer then r.cost else pos 0)
    unfolding charge
    charge_decided r answer here = ground arith

    pub exec-Inv :
        (policies : Dict Key Policy) (rs : List Request)
        → lookup key policies ≡ some p
        → let (l, log) = exec (step N) (fresh N policies) rs in
          Inv (spent key ever log) (gained key p policies rs) l
    unfolding exec spent lookup gained
    exec-Inv policies [] known = record {
      known = known;
      fits = tt;
      conserved = zero-+ℤ p.limit ∙ sym (add_zero p.limit);
    }
    exec-Inv policies (r ∷ older) known =
        let (l, log) = exec (step N) (fresh N policies) older in
        let before = exec-Inv policies older known in
        elim (Bool-cases (key_beq key r.key)) [
          | inr other ↦ rw other (
              same-Inv l (step N l r).1 (spent key ever log) _ (gained key p policies older) before
                (step-policies l r) (step-buckets_other l r key other)
                (rw (charge_other key ever r (step N l r).0 other) (zero-+ℤ (spent key ever log))))
          | inl here ↦
              let e : r.key ≡ key = sym ((key_beq_iff key r.key).0 here) in
              elim (step_considered N l r p (rw e before.known)) [
                | inr (other, refused, same) ↦
                    rw (here, other)
                      (same-Inv l (step N l r).1 (spent key ever log) _
                        (gained key p policies older) before (rw same refl) (rw same refl)
                        (rw (charge_refused key ever r (step N l r).0 refused)
                          (zero-+ℤ (spent key ever log))))
                | inl (reaches, positive, small, outcome) ↦
                    let there : step N l r ≡ decide N l key p r.at r.cost =
                      outcome ∙ ap (λ k. decide N l k p r.at r.cost) e in
                    rw (charge_decided r (step N l r).0 here, there, here, reaches)
                      (decided-Inv l (spent key ever log) (gained key p policies older) r.cost r.at
                        before positive small)
              ]
        ]

    left_in-bounds :
        (slot : Option (Bucket F))
        → Fits N p slot
        → (pos 0 ≤ℤ left_in N p slot) × (left_in N p slot ≤ℤ p.limit)
    left_in-bounds none fits = (omega (arith, c.valid.limit_positive), omega arith)
    left_in-bounds (some bucket) fits = whole_tokens-bounds N p bucket.tokens c fits

    -- What is drawn and what is left, in terms of what the code's refills have added.
    pub exec-conserved :
        (policies : Dict Key Policy) (rs : List Request)
        → lookup key policies ≡ some p
        → let (l, log) = exec (step N) (fresh N policies) rs in
          let left = left_in N p (lookup key l.buckets) in
          (spent key ever log +ℤ left ≡ p.limit +ℤ gained key p policies rs)
          × (pos 0 ≤ℤ left)
          × (left ≤ℤ p.limit)
    exec-conserved policies rs known =
        let i = exec-Inv policies rs known in
        let (l, log) = exec (step N) (fresh N policies) rs in
        let (lo, hi) = left_in-bounds (lookup key l.buckets) i.fits in (i.conserved, lo, hi)
