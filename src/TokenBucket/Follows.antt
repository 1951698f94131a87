-- ===== src/TokenBucket/Follows.antt =====
-- The limiter's bucket of a key is the one that the history tells.
use rate_limiter_as_a_servic.Limiter.{Policy, Key, key_beq, key_eq, key_beq_iff}
use rate_limiter_as_a_servic.History.{Request, is_allowed, exec}
use rate_limiter_as_a_servic.Clock.{Time, sub}
use rate_limiter_as_a_servic.Floats.{Float64}
use rate_limiter_as_a_servic.TokenBucket.{
  Bucket, TokenBucketRateLimiter, refilled_bucket, refilled_from, refill, whole_tokens, decide,
  step, fresh,
}
use rate_limiter_as_a_servic.TokenBucket.Refill.{IsCountable, left_in}
use rate_limiter_as_a_servic.TokenBucket.Exact.{step_considered}
use rate_limiter_as_a_servic.TokenBucket.Conserved.{exec-Inv, gained, step-buckets_other}
use rate_limiter_as_a_servic.TokenBucket.Reference.{
  tokens_at, latest, taken, bucket_after, returned, came_back, whole_left,
}
use rate_limiter_as_a_servic.Base.{
  ℤ, pos, Option, none, some, List, [], ◌∷◌, leb_ℤ, max_ℤ, ◌≡◌, refl, true, false, lookup, Dict,
  Bool-cases, inl, inr, lookup-insert_self, sym, ap, ◌∙◌, arith, -ℤ_parts,
}

-- Go's `elapsed <= 0`, whose difference saturates, tells which instant is later.
sub_sign : (now last : Time) → leb_ℤ (sub now last) (pos 0) ≡ leb_ℤ now last
unfolding sub
sub_sign now last = ground (arith, -ℤ_parts now last)

later_of : (a b : Time) → leb_ℤ b a ≡ true → max_ℤ a b ≡ a
later_of a b h = ground arith

earlier_of : (a b : Time) → leb_ℤ b a ≡ false → max_ℤ a b ≡ b
earlier_of a b h = ground arith

module _ (N : Float64) (p : Policy) where
  open N use {F, of_int, lt, subtract}

  pub refilled_from-tokens_at :
      (slot : Option (Bucket F)) (now : Time)
      → refilled_from N slot p now
        ≡ record { tokens = tokens_at N p slot now; last_refill = latest N p slot now }
  unfolding refilled_from tokens_at refill returned
  refilled_from-tokens_at none now = refl
  refilled_from-tokens_at (some b) now = elim (Bool-cases (leb_ℤ now b.last_refill)) [
    | inl back ↦ rw (sub_sign now b.last_refill, back, later_of b.last_refill now back) refl
    | inr on ↦ rw (sub_sign now b.last_refill, on, earlier_of b.last_refill now on) refl
  ]

  left_in-whole_left : (slot : Option (Bucket F)) → left_in N p slot ≡ whole_left N p slot
  unfolding whole_tokens
  left_in-whole_left none = refl
  left_in-whole_left (some b) = refl

  decide-bucket :
      (l : TokenBucketRateLimiter F) (key : Key) (now : Time) (cost : ℤ)
      → let (answer, l') = decide N l key p now cost in
        let slot = lookup key l.buckets in
        lookup key l'.buckets
        ≡ some (record {
          tokens = taken N p (is_allowed answer) cost (tokens_at N p slot now);
          last_refill = latest N p slot now;
        })
  unfolding decide refilled_bucket
  decide-bucket l key now cost =
      rw (refilled_from-tokens_at (lookup key l.buckets) now)
        (elim (Bool-cases (lt (tokens_at N p (lookup key l.buckets) now) (of_int cost))) [
          | inl short ↦ rw (short, lookup-insert_self) refl
          | inr covered ↦ rw (covered, lookup-insert_self) refl
        ])

  module _ (key : Key) (policies : Dict Key Policy) (c : IsCountable p)
      (known : lookup key policies ≡ some p) where
    -- The code's map of buckets holds the reference bucket.
    pub exec-bucket_after :
        (rs : List Request)
        → let (l, log) = exec (step N) (fresh N policies) rs in
          lookup key l.buckets ≡ bucket_after N p key log
    unfolding exec bucket_after lookup
    exec-bucket_after [] = refl
    exec-bucket_after (r ∷ older) =
        let (l, log) = exec (step N) (fresh N policies) older in
        let before = exec-bucket_after older in
        elim (Bool-cases (key_beq key r.key)) [
          | inr other ↦ rw other (step-buckets_other N l r key other ∙ before)
          | inl here ↦
              let e : r.key ≡ key = sym ((key_beq_iff key r.key).0 here) in
              let knows = (exec-Inv N key p c policies older known).known in
              elim (step_considered N l r p (rw e knows)) [
                | inr (other, refused, same) ↦
                    rw (here, other) (ap (λ l'. lookup key l'.buckets) same ∙ before)
                | inl (reaches, positive, small, outcome) ↦
                    let there : step N l r ≡ decide N l key p r.at r.cost =
                      outcome ∙ ap (λ k. decide N l k p r.at r.cost) e in
                    rw (here, reaches, there, ← before) (decide-bucket l key r.at r.cost)
              ]
        ]

    pub gained-came_back :
        (rs : List Request)
        → gained N key p policies rs ≡ came_back N p key (exec (step N) (fresh N policies) rs).1
    unfolding gained came_back exec whole_tokens
    gained-came_back [] = refl
    gained-came_back (r ∷ older) =
        let slot = lookup key (exec (step N) (fresh N policies) older).0.buckets in
        rw (
          gained-came_back older,
          ← exec-bucket_after older,
          refilled_from-tokens_at slot r.at,
          left_in-whole_left slot,
        )
