-- ===== src/TokenBucket/Burst.antt =====
-- What a burst of requests at one instant can draw.
use rate_limiter_as_a_servic.History.{Request, exec, spent}
use rate_limiter_as_a_servic.Limiter.{Policy, Key, key_beq, key_eq, key_beq_iff}
use rate_limiter_as_a_servic.Clock.{sub, Time}
use rate_limiter_as_a_servic.Floats.{Float64}
use rate_limiter_as_a_servic.TokenBucket.{
  Bucket, TokenBucketRateLimiter, refilled_bucket, refilled_from, whole_tokens, decide, step, fresh,
  sub, Time, Policy, Key, Request,
}
use rate_limiter_as_a_servic.TokenBucket.Refill.{IsCountable}
use rate_limiter_as_a_servic.TokenBucket.Exact.{step_considered}
use rate_limiter_as_a_servic.TokenBucket.Conserved.{
  exec-Inv, exec-conserved, gained, gain, ever, step-buckets_other,
}
use rate_limiter_as_a_servic.Base.{
  ℤ, pos, ◌-ℤ◌, ◌≡◌, List, Option, lookup, Dict, eq_of_parts, leb_ℤ, some, ap, Bool-cases, int_laws,
  true, ◌∷◌, arith, inl, none, -ℤ_parts, ◌∙◌, lookup-insert_self, ◌≤ℤ◌, [], refl, pos_part, inr,
  neg_part, subst, sym, zero-+ℤ,
}

sub_self : (a : ℤ) → a -ℤ a ≡ pos 0
sub_self a = eq_of_parts _ _ (omega int_laws)

sub_at : (t u : Time) → u ≡ t → leb_ℤ (sub t u) (pos 0) ≡ true
unfolding sub
sub_at t u e = ground (arith, -ℤ_parts t u, ap pos_part e, ap neg_part e)

module _ (N : Float64) where
  open N use {F, of_int, lt, le, subtract, floor, to_int}

  -- No request reads another time than `t`.
  abbrev pub AllAt : Time → List Request → Type 0
  AllAt t [] = Unit
  AllAt t (r ∷ older) = (r.at ≡ t) × AllAt t older

  -- A bucket that was last refilled at `t`.
  abbrev Stamped : Time → Option (Bucket F) → Type 0
  Stamped t none = Unit
  Stamped t (some bucket) = bucket.last_refill ≡ t

  refilled_from-Stamped :
      (p : Policy) (t : Time) (slot : Option (Bucket F))
      → Stamped t slot
      → (refilled_from N slot p t).last_refill ≡ t
  unfolding refilled_from
  refilled_from-Stamped p t none s = refl
  refilled_from-Stamped p t (some bucket) s = ground arith

  -- Between two requests at one instant nothing is added.
  gain-Stamped :
      (p : Policy) (t : Time) (slot : Option (Bucket F))
      → IsCountable p
      → Stamped t slot
      → gain N p slot t ≡ pos 0
  unfolding refilled_from whole_tokens
  gain-Stamped p t none c s =
      ap (λ w. w -ℤ p.limit)
        (N.floor_of_int p.limit (omega (arith, c.valid.limit_positive)) c.limit_exact)
      ∙ sub_self p.limit
  gain-Stamped p t (some bucket) c s =
      rw (sub_at t bucket.last_refill s) (sub_self (whole_tokens N bucket.tokens))

  decide-Stamped :
      (l : TokenBucketRateLimiter F) (key : Key) (p : Policy) (t : Time) (cost : ℤ)
      → Stamped t (lookup key l.buckets)
      → Stamped t (lookup key (decide N l key p t cost).1.buckets)
  unfolding decide refilled_bucket
  decide-Stamped l key p t cost s =
      let same = refilled_from-Stamped p t (lookup key l.buckets) s in
      let bucket = refilled_from N (lookup key l.buckets) p t in
      elim (Bool-cases (lt bucket.tokens (of_int cost))) [
        | inl short ↦ rw (short, lookup-insert_self) same
        | inr covered ↦ rw (covered, lookup-insert_self) same
      ]

  module _ (key : Key) (p : Policy) (policies : Dict Key Policy) (c : IsCountable p)
      (known : lookup key policies ≡ some p) (t : Time) where
    gained_at :
        (rs : List Request)
        → AllAt t rs
        → Stamped t (lookup key (exec (step N) (fresh N policies) rs).0.buckets)
          × (gained N key p policies rs ≡ pos 0)
    unfolding gained exec lookup
    gained_at [] at = (tt, refl)
    gained_at (r ∷ older) (now, at) =
        let (stamped, nothing) = gained_at older at in
        let l = (exec (step N) (fresh N policies) older).0 in
        let slot = lookup key l.buckets in
        elim (Bool-cases (key_beq key r.key)) [
          | inr other ↦ (
            subst (Stamped t) (sym (step-buckets_other N l r key other)) stamped,
            rw (other, zero-+ℤ) nothing,
          )
          | inl here ↦
              let e : r.key ≡ key = sym ((key_beq_iff key r.key).0 here) in
              let knows = (exec-Inv N key p c policies older known).known in
              elim (step_considered N l r p (rw e knows)) [
                | inr (other, refused, same) ↦ (
                  subst (λ l'. Stamped t (lookup key l'.buckets)) (sym same) stamped,
                  rw (here, other, zero-+ℤ) nothing,
                )
                | inl (reaches, positive, small, outcome) ↦
                    let there : step N l r ≡ decide N l key p t r.cost =
                      outcome
                      ∙ ap (λ k. decide N l k p r.at r.cost) e
                      ∙ ap (λ at'. decide N l key p at' r.cost) now in
                    let still : gain N p slot r.at ≡ pos 0 =
                      ap (gain N p slot) now ∙ gain-Stamped p t slot c stamped in
                    (
                      subst (λ x. Stamped t (lookup key x.1.buckets)) (sym there)
                          (decide-Stamped l key p t r.cost stamped),
                      rw (here, reaches, still, zero-+ℤ) nothing,
                    )
              ]
        ]

    -- For a key with a valid policy whose limit is at most 2^53: however many requests come at one
    -- instant, the first ones of a new limiter, what the key is allowed costs at most its limit.
    pub burst-le-limit :
        (rs : List Request)
        → AllAt t rs
        → spent key ever (exec (step N) (fresh N policies) rs).1 ≤ℤ p.limit
    burst-le-limit rs at =
        let (conserved, lo, hi) = exec-conserved N key p c policies rs known in
        let none_added = (gained_at rs at).1 in
        omega (
          int_laws,
          ap pos_part conserved,
          ap neg_part conserved,
          ap pos_part none_added,
          ap neg_part none_added,
        )
