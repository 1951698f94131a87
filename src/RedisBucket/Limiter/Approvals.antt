-- ===== src/RedisBucket/Limiter/Approvals.antt =====
-- Approvals and their events: the stream is the record of what the limiter has granted.
use rate_limiter_as_a_servic.Limiter.{
  ok-injective, Key, Policy, Error, Decision, err, ok, Result, key_eq,
}
use rate_limiter_as_a_servic.Floats.{Float64}
use rate_limiter_as_a_servic.RedisBucket.Server.{Redis, LuaText, Fields}
use rate_limiter_as_a_servic.RedisBucket.Script.{
  covers, written, event, now_ms, stored_tokens, is_full,
}
use rate_limiter_as_a_servic.RedisBucket.Script.Effect.{entries-written}
use rate_limiter_as_a_servic.RedisBucket.Limiter.{
  RedisTokenBucketRateLimiter, Delivery, lost_after, arguments, allow, redis_key, Key,
}
use rate_limiter_as_a_servic.RedisBucket.Limiter.Promise.{apply_cases, allow_cases}
use text.Mathlib.Text.{◌==◌ as str_eq}
use rate_limiter_as_a_servic.Base.{
  ℤ, pos, String, Option, ◌≡◌, false, Bool, length, ◌⊎◌, if◌then◌else◌, ◌<ℤ◌, ◌≤ℤ◌, ◌++◌, true, inl,
  leb_ℤ, lookup, ap, ◌∷◌, subst, [], some, inr, arith, sym, ◌∙◌,
}

module _ (N : Float64) (T : LuaText N) (S : Redis) (encode : String → String) where
  open N use {of_int, to_int, floor, subtract}

  -- The event of a grant that the script makes now.
  abbrev pub event_now : RedisTokenBucketRateLimiter → S.R → Key → Policy → ℤ → Fields
  event_now l r key p cost =
      let a = arguments N T S encode l key p cost in
      event N T S a (now_ms N T S r) (subtract (stored_tokens N T S r a) (of_int cost))

  -- The bucket and the stream have keys of their own.
  abbrev pub IsApart : RedisTokenBucketRateLimiter → Key → Type 0
  IsApart l key = str_eq (redis_key encode l key) l.event_stream ≡ false

  room_left :
      (l : RedisTokenBucketRateLimiter) (r : S.R) (key : Key) (p : Policy) (cost : ℤ)
      → is_full N T S r (arguments N T S encode l key p cost) ≡ false
      → pos (length (S.entries r l.event_stream)) <ℤ l.max_backlog
  unfolding arguments
  room_left l r key p cost room =
      let counted = S.xlen_entries r l.event_stream in
      let test : leb_ℤ l.max_backlog (pos (length (S.entries r l.event_stream))) ≡ false =
        subst (λ n. leb_ℤ l.max_backlog n ≡ false) counted room in
      ground arith

  pub entries_after :
      (l : RedisTokenBucketRateLimiter) (r : S.R) (key : Key) (p : Policy) (cost : ℤ) (tokens : N.F)
      (allowed : Bool)
      → IsApart l key
      → let a = arguments N T S encode l key p cost in
        S.entries (written N T S r a (now_ms N T S r) tokens allowed) l.event_stream ≡ (
          if allowed
          then S.entries r l.event_stream ++ event N T S a (now_ms N T S r) tokens ∷ []
          else S.entries r l.event_stream)
  unfolding arguments
  entries_after l r key p cost tokens allowed apart =
      entries-written N T S r (arguments N T S encode l key p cost) (now_ms N T S r) tokens allowed
        apart

  module _ (l : RedisTokenBucketRateLimiter) (r : S.R) (d : Delivery) (ctx_err : Option Error)
      (key : Key) (cost : ℤ) where
    -- What holds once a request is allowed.
    pub allow_granted :
        (dec : Decision)
        → (allow N T S encode l r d ctx_err key cost).0 ≡ ok dec
        → dec.allowed ≡ true
        → (p : Policy) × (lookup key l.policies ≡ some p)
          × (pos 0 <ℤ cost)
          × (cost ≤ℤ p.limit)
          × (let a = arguments N T S encode l key p cost in
              let left = subtract (stored_tokens N T S r a) (of_int cost) in
              (covers N T S a (stored_tokens N T S r a) ≡ true)
              × (is_full N T S r a ≡ false)
              × (dec.remaining ≡ to_int (floor left))
              × ((allow N T S encode l r d ctx_err key cost).1
                  ≡ written N T S r a (now_ms N T S r) left true))
    allow_granted dec answer granted = elim (allow_cases N T S encode l r d ctx_err key cost) [
      | inl (e, early) ↦ let wrong : err e ≡ ok dec = sym (ap (λ x. x.0) early) ∙ answer in cc
      | inr (p, known, positive, fit, same) ↦ elim (apply_cases N T S encode l r key p cost d) [
        | inl (e, failed, _) ↦
            let wrong : err e ≡ ok dec = sym failed ∙ sym (ap (λ x. x.0) same) ∙ answer in cc
        | inr (inl (given, answered, approved, left, covered, room, after)) ↦
            let equal : given ≡ dec =
              ok-injective (sym answered ∙ sym (ap (λ x. x.0) same) ∙ answer) in
            (
              p,
              known,
              positive,
              fit,
              (
                covered,
                room,
                sym (ap (λ (x : Decision). x.remaining) equal) ∙ left,
                ap (λ x. x.1) same ∙ after,
              ),
            )
        | inr (inr (given, answered, denied, after)) ↦
            let equal : ok given ≡ ok dec = sym answered ∙ sym (ap (λ x. x.0) same) ∙ answer in cc
      ]
    ]

    -- No approval is reported without its event: if the key of the bucket is not that of the stream
    -- and `Allow` reports that a request is allowed, then the key has a policy, the stream had
    -- fewer entries than the backlog limit, and it now ends with one more entry, the event of this
    -- request.
    pub approval_has_event :
        (dec : Decision)
        → IsApart l key
        → (allow N T S encode l r d ctx_err key cost).0 ≡ ok dec
        → dec.allowed ≡ true
        → (p : Policy) × (lookup key l.policies ≡ some p)
          × (pos (length (S.entries r l.event_stream)) <ℤ l.max_backlog)
          × (S.entries (allow N T S encode l r d ctx_err key cost).1 l.event_stream
              ≡ S.entries r l.event_stream ++ event_now l r key p cost ∷ [])
    approval_has_event dec apart answer granted =
        let (p, known, _, _, (_, room, _, after)) = allow_granted dec answer granted in
        (
          p,
          known,
          room_left l r key p cost room,
          ap (λ r'. S.entries r' l.event_stream) after ∙ entries_after l r key p cost _ true apart,
        )

    -- An error spends nothing and reports nothing: if `Allow` returns an error, Redis is as before,
    -- unless the script has run and its answer was lost on the way back.
    pub error_unchanged :
        (e : Error)
        → (allow N T S encode l r d ctx_err key cost).0 ≡ err e
        → ((allow N T S encode l r d ctx_err key cost).1 ≡ r) ⊎ ((c : Error) × (d ≡ lost_after c))
    error_unchanged e answer = elim (allow_cases N T S encode l r d ctx_err key cost) [
      | inl (e', early) ↦ inl (ap (λ x. x.1) early)
      | inr (p, known, positive, fit, same) ↦ elim (apply_cases N T S encode l r key p cost d) [
        | inl (e', failed, inl kept) ↦ inl (ap (λ x. x.1) same ∙ kept)
        | inl (e', failed, inr lost) ↦ inr lost
        | inr (inl (dec, answered, granted, left, covered, room, after)) ↦
            let wrong : ok dec ≡ err e = sym answered ∙ sym (ap (λ x. x.0) same) ∙ answer in cc
        | inr (inr (dec, answered, denied, after)) ↦
            let wrong : ok dec ≡ err e = sym answered ∙ sym (ap (λ x. x.0) same) ∙ answer in cc
      ]
    ]

    -- The stream gains an entry only for an approval: if the key of the bucket is not that of the
    -- stream and `Allow` reports that a request is denied, the entries of the stream are as before.
    pub denied_without_event :
        (dec : Decision)
        → IsApart l key
        → (allow N T S encode l r d ctx_err key cost).0 ≡ ok dec
        → dec.allowed ≡ false
        → S.entries (allow N T S encode l r d ctx_err key cost).1 l.event_stream
          ≡ S.entries r l.event_stream
    denied_without_event dec apart answer denied =
        elim (allow_cases N T S encode l r d ctx_err key cost) [
          | inl (e, early) ↦ ap (λ (x : Result Decision × S.R). S.entries x.1 l.event_stream) early
          | inr (p, known, positive, fit, same) ↦ elim (apply_cases N T S encode l r key p cost d) [
            | inl (e, failed, _) ↦
                let wrong : err e ≡ ok dec = sym failed ∙ sym (ap (λ x. x.0) same) ∙ answer in cc
            | inr (inl (given, answered, approved, left, covered, room, after)) ↦
                let equal : ok given ≡ ok dec = sym answered ∙ sym (ap (λ x. x.0) same) ∙ answer in
                cc
            | inr (inr (given, answered, rejected, after)) ↦
                ap (λ (x : Result Decision × S.R). S.entries x.1 l.event_stream) same
                ∙ ap (λ r'. S.entries r' l.event_stream) after
                ∙ entries_after l r key p cost _ false apart
          ]
        ]
