-- ===== src/RedisBucket/Limiter/Buckets.antt =====
-- The buckets that calls of the limiter leave in Redis, whatever else happens to them in between.
use rate_limiter_as_a_servic.Clock.{millisecond}
use rate_limiter_as_a_servic.Limiter.{Key, Policy, Error, IsValid, key_eq}
use rate_limiter_as_a_servic.Floats.{Float64}
use rate_limiter_as_a_servic.TokenBucket.{milliseconds_rounded_up}
use rate_limiter_as_a_servic.TokenBucket.Refill.{Within}
use rate_limiter_as_a_servic.RedisBucket.Server.{Redis, LuaText, max_text}
use rate_limiter_as_a_servic.RedisBucket.Keys.{IsEncoding, redis_key-injective}
use rate_limiter_as_a_servic.RedisBucket.Script.{
  covers, bind_number, written, stored_tokens, covers, run_script, now_ms,
}
use rate_limiter_as_a_servic.RedisBucket.Script.Effect.{run_script_cases}
use rate_limiter_as_a_servic.RedisBucket.Script.Hash.{
  hmget-written, hmget-written_other, refilled-Within,
}
use rate_limiter_as_a_servic.RedisBucket.Limiter.{
  RedisTokenBucketRateLimiter, Delivery, delivered, lost_before, lost_after, redis_key, arguments,
  allow, apply,
}
use rate_limiter_as_a_servic.RedisBucket.Limiter.Promise.{allow_cases}
use text.Mathlib.Text.{◌==◌ as str_eq}
use text.Mathlib.TextEquality.{eq_iff}
use rate_limiter_as_a_servic.Base.{
  ℤ, pos, String, Option, some, none, ◌≡◌, true, false, lookup, ◌⊎◌, inl, inr, ◌≤ℤ◌, ◌<ℤ◌, Bool,
  Bool-cases, ap, sym, ◌∙◌, subst, ltb_ℤ, max_int64, arith,
}

-- A policy for a Redis bucket: valid, of at least a millisecond, and with a limit that Lua writes with
-- all its digits.
pub record IsStorable (p : Policy) : Type 0 where
  pub valid : IsValid p
  pub window_ms : millisecond ≤ℤ p.window
  pub window_word : p.window ≤ℤ max_int64
  pub limit_text : p.limit ≤ℤ max_text

module _ (N : Float64) (T : LuaText N) (S : Redis) (encode : String → String)
    (l : RedisTokenBucketRateLimiter) where
  open N use {F, of_int, subtract}

  -- The tokens that a bucket holds.
  abbrev pub held : S.R → Key → Option F
  held r key = bind_number (S.hmget r (redis_key encode l key)).0 T.tonumber

  -- The states of Redis that calls lead to from one without buckets. Between calls a bucket may
  -- expire, and anything may happen to other keys: the worker takes events away, other limiters keep
  -- their own buckets, time passes.
  pub data Reach : S.R → Type 0 where
    clear : {r : S.R} → ((key : Key) → S.hmget r (redis_key encode l key) ≡ (none, none)) → Reach r
    called :
        {r : S.R}
        → Reach r
        → (d : Delivery) (ctx_err : Option Error) (key : Key) (cost : ℤ)
        → Reach (allow N T S encode l r d ctx_err key cost).1
    elsewhere :
        {r r' : S.R}
        → Reach r
        → ((key : Key)
            → (S.hmget r' (redis_key encode l key) ≡ S.hmget r (redis_key encode l key))
              ⊎ (S.hmget r' (redis_key encode l key) ≡ (none, none)))
        → Reach r'

  abbrev number_of : Option String × Option String → Option F
  number_of h = bind_number h.0 T.tonumber

  abbrev Bounded : S.R → Type 0
  Bounded r =
      (key : Key) (p : Policy) (x : F)
      → lookup key l.policies ≡ some p
      → held r key ≡ some x
      → Within N p.limit x

  module _ (encoding : IsEncoding encode)
      (apart : (key : Key) → str_eq (redis_key encode l key) l.event_stream ≡ false)
      (storable : (key : Key) (p : Policy) → lookup key l.policies ≡ some p → IsStorable p) where
    -- The bucket that is written.
    held-written :
        (r : S.R) (key : Key) (p : Policy) (cost : ℤ) (tokens : F) (allowed : Bool) (x : F)
        → IsStorable p
        → Within N p.limit tokens
        → let a = arguments N T S encode l key p cost in
          held (written N T S r a (now_ms N T S r) tokens allowed) key ≡ some x → Within N p.limit x
    unfolding arguments
    held-written r key p cost tokens allowed x s within there =
        let a = arguments N T S encode l key p cost in
        let stored =
          sym (ap number_of (hmget-written N T S r a (now_ms N T S r) tokens allowed (apart key)))
          ∙ there in
        elim (Bool-cases (ltb_ℤ (pos 0) a.ttl_ms)) [
          | inl live ↦
              let (y, read, lo, hi) =
                T.tonumber_tostring p.limit tokens within.0 within.1 s.limit_text in
              let same : some y ≡ some x = sym read ∙ rw live at stored in
              let equal : y ≡ x = cc in subst (λ x. Within N p.limit x) equal (lo, hi)
          | inr dead ↦ let empty : none ≡ some x = rw dead at stored in cc
        ]

    written-Bounded :
        (r : S.R) (key : Key) (p : Policy) (cost : ℤ) (tokens : F) (allowed : Bool)
        → lookup key l.policies ≡ some p
        → Within N p.limit tokens
        → Bounded r
        → let a = arguments N T S encode l key p cost in
          Bounded (written N T S r a (now_ms N T S r) tokens allowed)
    unfolding arguments
    written-Bounded r key p cost tokens allowed known within bounded key' p' x known' there =
        let a = arguments N T S encode l key p cost in
        elim (Bool-cases (str_eq (redis_key encode l key) (redis_key encode l key'))) [
          | inl same ↦
              let equal = redis_key-injective encode l key key' encoding ((eq_iff _ _).0 same) in
              let policies : some p ≡ some p' =
                sym known ∙ ap (λ k. lookup k l.policies) equal ∙ known' in
              let policy : p ≡ p' = cc in
              subst (λ p. Within N p.limit x) policy
                (held-written r key p cost tokens allowed x (storable key p known) within (
                  ap (λ k. held (written N T S r a (now_ms N T S r) tokens allowed) k) equal
                  ∙ there))
          | inr other ↦ bounded key' p' x known' (
              sym (
                ap number_of (
                  hmget-written_other N T S r a (now_ms N T S r) tokens allowed
                    (redis_key encode l key') other (apart key')))
              ∙ there)
        ]

    stored_tokens-Within :
        (r : S.R) (key : Key) (p : Policy) (cost : ℤ)
        → lookup key l.policies ≡ some p
        → Bounded r
        → Within N p.limit (stored_tokens N T S r (arguments N T S encode l key p cost))
    unfolding stored_tokens arguments milliseconds_rounded_up
    stored_tokens-Within r key p cost known bounded =
        let s = storable key p known in
        let (least, most) =
          N.ceil_quotient p.window 1_000_000 (omega arith) s.window_ms s.window_word in
        refilled-Within N T S (arguments N T S encode l key p cost) _ _ _ s.valid.limit_positive
          s.valid.limit_word (omega arith) most (λ x. bounded key p x known)

    spent-Within :
        (r : S.R) (key : Key) (p : Policy) (cost : ℤ)
        → lookup key l.policies ≡ some p
        → pos 0 <ℤ cost
        → cost ≤ℤ p.limit
        → covers N T S
            (arguments N T S encode l key p cost)
            (stored_tokens N T S r (arguments N T S encode l key p cost))
          ≡ true
        → Bounded r
        → Within N p.limit
            (subtract (stored_tokens N T S r (arguments N T S encode l key p cost)) (of_int cost))
    unfolding arguments
    spent-Within r key p cost known positive fit covered bounded =
        let small : cost ≤ℤ max_int64 = omega (arith, (storable key p known).valid.limit_word) in
        let tokens = stored_tokens N T S r (arguments N T S encode l key p cost) in
        let within = stored_tokens-Within r key p cost known bounded in
        (
          N.subtract_nonneg cost tokens (omega arith) small covered,
          N.le_trans _ tokens _ (N.subtract_shrinks cost tokens (omega arith) small covered)
              within.1,
        )

    run_script-Bounded :
        (r : S.R) (key : Key) (p : Policy) (cost : ℤ)
        → lookup key l.policies ≡ some p
        → pos 0 <ℤ cost
        → cost ≤ℤ p.limit
        → Bounded r
        → Bounded (run_script N T S r (arguments N T S encode l key p cost)).1
    unfolding arguments
    run_script-Bounded r key p cost known positive fit bounded =
        let a = arguments N T S encode l key p cost in
        let within = stored_tokens-Within r key p cost known bounded in
        elim (run_script_cases N T S r a) [
          | inl (e, same) ↦ rw same bounded
          | inr (inl (covered, full, same)) ↦ rw same bounded
          | inr (inr (inl (covered, room, same))) ↦ rw same (
              written-Bounded r key p cost (subtract (stored_tokens N T S r a) (of_int cost)) true
                known (spent-Within r key p cost known positive fit covered bounded) bounded)
          | inr (inr (inr (short, same))) ↦
              rw same
                (written-Bounded r key p cost (stored_tokens N T S r a) false known within bounded)
        ]

    apply-Bounded :
        (r : S.R) (d : Delivery) (key : Key) (p : Policy) (cost : ℤ)
        → lookup key l.policies ≡ some p
        → pos 0 <ℤ cost
        → cost ≤ℤ p.limit
        → Bounded r
        → Bounded (apply N T S encode l r d key p cost).1
    apply-Bounded r delivered key p cost known positive fit bounded =
        run_script-Bounded r key p cost known positive fit bounded
    apply-Bounded r (lost_before e) key p cost known positive fit bounded = bounded
    apply-Bounded r (lost_after e) key p cost known positive fit bounded =
        run_script-Bounded r key p cost known positive fit bounded

    allow-Bounded :
        (r : S.R) (d : Delivery) (ctx_err : Option Error) (key : Key) (cost : ℤ)
        → Bounded r
        → Bounded (allow N T S encode l r d ctx_err key cost).1
    allow-Bounded r d ctx_err key cost bounded =
        elim (allow_cases N T S encode l r d ctx_err key cost) [
          | inl (e, early) ↦ rw early bounded
          | inr (p, known, positive, fit, same) ↦
              rw same (apply-Bounded r d key p cost known positive fit bounded)
        ]

    -- Every bucket holds between no tokens and its limit. Let the keys be encoded without a colon
    -- and apart, no bucket have the key of the stream, and each policy be valid, of at least a
    -- millisecond and with a limit of at most 14 digits. Then in every state of Redis that calls of
    -- `Allow` lead to, the number that is stored for a key with a policy is at least zero and at
    -- most the limit of the policy.
    pub held-Within :
        (r : S.R) (key : Key) (p : Policy) (x : F)
        → Reach r
        → lookup key l.policies ≡ some p
        → held r key ≡ some x
        → Within N p.limit x
    held-Within r key p x (clear none_there) known there =
        let empty : none ≡ some x = sym (ap number_of (none_there key)) ∙ there in cc
    held-Within _ key p x (called {r = r} reached d ctx_err k cost) known there =
        allow-Bounded r d ctx_err k cost
          (λ k' p' x' known' there'. held-Within r k' p' x' reached known' there') key p x known
          there
    held-Within r' key p x (elsewhere {r = r} reached unchanged) known there =
        elim (unchanged key) [
          | inl same ↦ held-Within r key p x reached known (sym (ap number_of same) ∙ there)
          | inr gone ↦ let empty : none ≡ some x = sym (ap number_of gone) ∙ there in cc
        ]

    -- What is left once a cost is taken, in a state that is reached.
    pub next_tokens-Within :
        (r : S.R) (key : Key) (p : Policy) (cost : ℤ)
        → Reach r
        → lookup key l.policies ≡ some p
        → pos 0 <ℤ cost
        → cost ≤ℤ p.limit
        → covers N T S
            (arguments N T S encode l key p cost)
            (stored_tokens N T S r (arguments N T S encode l key p cost))
          ≡ true
        → Within N p.limit
            (subtract (stored_tokens N T S r (arguments N T S encode l key p cost)) (of_int cost))
    next_tokens-Within r key p cost reach known positive fit covered =
        spent-Within r key p cost known positive fit covered
          (λ key' p' x known' there. held-Within r key' p' x reach known' there)
