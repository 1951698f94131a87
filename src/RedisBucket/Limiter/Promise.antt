-- ===== src/RedisBucket/Limiter/Promise.antt =====
-- What the Redis limiter promises: an approval is its event, and an error spends nothing.
use rate_limiter_as_a_servic.Clock.{unix_milli}
use rate_limiter_as_a_servic.Limiter.{
  Key, Policy, Result, Decision, Error, err, ok, sentinel, event_backlog_full, invalid_cost,
  no_policy, cost_exceeds_limit, key_eq,
}
use rate_limiter_as_a_servic.Floats.{Float64}
use rate_limiter_as_a_servic.RedisBucket.Server.{Redis, LuaText}
use rate_limiter_as_a_servic.RedisBucket.Script.{
  Arguments, run_script, written, now_ms, stored_tokens, is_full, covers, retry_after_ms,
  reset_at_ms,
}
use rate_limiter_as_a_servic.RedisBucket.Script.Effect.{run_script_cases}
use rate_limiter_as_a_servic.RedisBucket.Limiter.{
  RedisTokenBucketRateLimiter, Delivery, delivered, lost_before, lost_after, decision_of, arguments,
  apply, allow, apply_error, Key,
}
use rate_limiter_as_a_servic.Base.{
  ℤ, pos, String, ◌⊎◌, inl, ◌≡◌, inr, true, false, Bool, refl, Option, lookup, some, ◌<ℤ◌, ◌≤ℤ◌,
  ≤ℤ_or_<, leb_ℤ-true, Option-cases, leb_ℤ-false, ltb_ℤ-false, ltb_ℤ-true, none,
}

module _ (N : Float64) (T : LuaText N) (S : Redis) (encode : String → String) where
  open N use {F, of_int, to_int, floor, subtract}

  module _ (l : RedisTokenBucketRateLimiter) (r : S.R) (key : Key) (p : Policy) (cost : ℤ) where
    abbrev pub args : Arguments
    args = arguments N T S encode l key p cost

    -- What a call that reaches the script comes to.
    abbrev pub IsLost : Delivery → Result Decision × S.R → Type 0
    IsLost d outcome =
        (e : Error) × (outcome.0 ≡ err e) × ((outcome.1 ≡ r) ⊎ ((c : Error) × (d ≡ lost_after c)))

    abbrev pub IsApproved : Result Decision × S.R → Type 0
    IsApproved outcome =
        (dec : Decision) × (outcome.0 ≡ ok dec)
        × (dec.allowed ≡ true)
        × (dec.remaining ≡ to_int (floor (subtract (stored_tokens N T S r args) (of_int cost))))
        × (covers N T S args (stored_tokens N T S r args) ≡ true)
        × (is_full N T S r args ≡ false)
        × (outcome.1
            ≡ written N T S r args (now_ms N T S r)
                (subtract (stored_tokens N T S r args) (of_int cost)) true)

    abbrev pub IsRejected : Result Decision × S.R → Type 0
    IsRejected outcome =
        (dec : Decision) × (outcome.0 ≡ ok dec)
        × (dec.allowed ≡ false)
        × (outcome.1 ≡ written N T S r args (now_ms N T S r) (stored_tokens N T S r args) false)

    abbrev decision_from : F → F → Bool → Decision
    decision_from left retry allowed = record {
      allowed = allowed;
      limit = p.limit;
      remaining = to_int (floor left);
      reset_at = unix_milli (to_int (reset_at_ms N T S args (now_ms N T S r) left));
      retry_after_ms = to_int retry;
    }

    abbrev outcome : Result Decision × S.R
    outcome = (decision_of p (run_script N T S r args).0, (run_script N T S r args).1)

    delivered_cases : IsLost delivered outcome ⊎ (IsApproved outcome ⊎ IsRejected outcome)
    unfolding decision_of arguments
    delivered_cases =
        let held = stored_tokens N T S r args in
        elim (run_script_cases N T S r args) [
          | inl (e, refused) ↦ rw refused (inl (apply_error e, refl, inl refl))
          | inr (inl (covered, full, same)) ↦
              rw same (inl (sentinel event_backlog_full, refl, inl refl))
          | inr (inr (inl (covered, room, same))) ↦ rw same (
              inr (
                inl (
                  decision_from (subtract held (of_int cost)) (of_int (pos 0)) true,
                  refl,
                  refl,
                  refl,
                  covered,
                  room,
                  refl,
                )))
          | inr (inr (inr (short, same))) ↦ rw same (
              inr
                (inr (decision_from held (retry_after_ms N T S args held) false, refl, refl, refl)))
        ]

    pub apply_cases :
        (d : Delivery)
        → let outcome = apply N T S encode l r d key p cost in
          IsLost d outcome ⊎ (IsApproved outcome ⊎ IsRejected outcome)
    unfolding decision_of
    apply_cases delivered = delivered_cases
    apply_cases (lost_before e) = inl (apply_error e, refl, inl refl)
    apply_cases (lost_after e) = inl (apply_error e, refl, inr (e, refl))

  -- A call of `Allow` ends before the script, or there.
  pub allow_cases :
      (l : RedisTokenBucketRateLimiter) (r : S.R) (d : Delivery) (ctx_err : Option Error)
      (key : Key) (cost : ℤ)
      → ((e : Error) × (allow N T S encode l r d ctx_err key cost ≡ (err e, r)))
        ⊎ ((p : Policy) × (lookup key l.policies ≡ some p)
            × (pos 0 <ℤ cost)
            × (cost ≤ℤ p.limit)
            × (allow N T S encode l r d ctx_err key cost ≡ apply N T S encode l r d key p cost))
  unfolding allow
  allow_cases l r d (some e) key cost = inl (e, refl)
  allow_cases l r d none key cost = elim (≤ℤ_or_< cost (pos 0)) [
    | inl small ↦ inl (sentinel invalid_cost, rw (leb_ℤ-true cost (pos 0) small) refl)
    | inr positive ↦ elim (Option-cases (lookup key l.policies)) [
      | inl missing ↦ inl (sentinel no_policy, rw (leb_ℤ-false cost (pos 0) positive, missing) refl)
      | inr (p, known) ↦ elim (≤ℤ_or_< cost p.limit) [
        | inl fit ↦ inr (
          p,
          known,
          positive,
          fit,
          rw (leb_ℤ-false cost (pos 0) positive, known, ltb_ℤ-false p.limit cost fit) refl,
        )
        | inr over ↦ inl (
          sentinel cost_exceeds_limit,
          rw (leb_ℤ-false cost (pos 0) positive, known, ltb_ℤ-true p.limit cost over) refl,
        )
      ]
    ]
  ]
