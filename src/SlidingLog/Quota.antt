-- ===== src/SlidingLog/Quota.antt =====
-- What the sliding-log limiter promises, against the history of answers.
use rate_limiter_as_a_servic.SlidingLog.Requests.{total}
use rate_limiter_as_a_servic.SlidingLog.Exact.{
  live, requests_of, Fits-requests, allow-decide, decide_exact, approval, denial,
}
use rate_limiter_as_a_servic.SlidingLog.Accounts.{exec-Inv}
use rate_limiter_as_a_servic.SlidingLog.{step, fresh, allow, RequestEntry}
use rate_limiter_as_a_servic.SlidingLog.Loops.{rolling, total-kept}
use rate_limiter_as_a_servic.History.{Request, Ordered, spent, exec}
use rate_limiter_as_a_servic.Clock.{Time}
use rate_limiter_as_a_servic.Limiter.{Key, Policy, IsValid, Decision, key_eq, ok}
use rate_limiter_as_a_servic.Base.{
  ℤ, pos, Dict, List, lookup, ◌≡◌, some, ◌<ℤ◌, ◌≤ℤ◌, none, leb_ℤ, ◌+ℤ◌, ◌-ℤ◌, if◌then◌else◌, ◌∙◌,
  sym, arith, inl, ap, leb_ℤ-true, inr, leb_ℤ-false, refl,
}

-- In every rolling window of the policy's length, wherever it ends, the requests that a key is
-- allowed cost at most the limit, for any history in which the clock does not go back.
pub rolling_spent-le-limit :
    (key : Key) (p : Policy) (last now : Time) (policies : Dict Key Policy) (rs : List Request)
    → IsValid p
    → lookup key policies ≡ some p
    → Ordered now rs
    → spent key (rolling p last) (exec step (fresh policies) rs).1 ≤ℤ p.limit
rolling_spent-le-limit key p last now policies rs v known o =
    (exec-Inv key p v last policies now rs known o).accounts.0

-- For a key with a valid policy and a history in which the clock does not go back, up to the
-- present: with `drawn` the cost allowed in the rolling window that ends now, a positive cost is
-- allowed exactly if `drawn + cost` is within the limit; the answer says what is left of the limit.
pub rolling_answer :
    (key : Key) (p : Policy) (now : Time) (cost : ℤ) (policies : Dict Key Policy)
    (rs : List Request)
    → IsValid p
    → lookup key policies ≡ some p
    → Ordered now rs
    → pos 0 <ℤ cost
    → let (l, log) = exec step (fresh policies) rs in
      let drawn = spent key (rolling p now) log in
      (d : Decision) × ((allow l none now key cost).0 ≡ ok d)
      × (d.allowed ≡ leb_ℤ (drawn +ℤ cost) p.limit)
      × (d.limit ≡ p.limit)
      × (d.remaining ≡ p.limit -ℤ (if d.allowed then drawn +ℤ cost else drawn))
rolling_answer key p now cost policies rs v known o positive =
    let i = exec-Inv key p v now policies now rs known o in
    let (l, log) = exec step (fresh policies) rs in
    let kept_now : List RequestEntry = live l key p now in
    let drawn : total kept_now ≡ spent key (rolling p now) log =
      total-kept p now (requests_of (lookup key l.logs))
        (Fits-requests p now (lookup key l.logs) v i.fits).1
      ∙ sym (i.accounts.1 (omega arith)) in
    rw (allow-decide l key p now cost i.known positive, ← drawn)
      (elim (decide_exact l key p now now v i.fits (omega arith) cost positive) [
        | inl (fit, e) ↦ (
          approval p kept_now now cost,
          ap (λ x. x.0) e,
          sym (leb_ℤ-true (total kept_now +ℤ cost) p.limit fit),
          refl,
          refl,
        )
        | inr (over, e) ↦ (
          denial p kept_now now cost,
          ap (λ x. x.0) e,
          sym (leb_ℤ-false (total kept_now +ℤ cost) p.limit over),
          refl,
          refl,
        )
      ])
