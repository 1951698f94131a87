-- ===== src/SlidingLog/Retry.antt =====
-- When a denied request may be repeated.
use rate_limiter_as_a_servic.SlidingLog.Loops.{release_from_iff}
use rate_limiter_as_a_servic.SlidingLog.Requests.{total, Sorted, kept, total_nonneg}
use rate_limiter_as_a_servic.History.{is_allowed}
use rate_limiter_as_a_servic.SlidingLog.Exact.{
  Fits, allow-decide, live, decide_exact, live-Sorted, total-live-le_limit, approval, denial,
  with_log,
}
use rate_limiter_as_a_servic.Clock.{Time}
use rate_limiter_as_a_servic.Limiter.{Key, Policy, Decision, IsValid, ok, key_eq, ok-injective}
use rate_limiter_as_a_servic.SlidingLog.{
  SlidingLogRateLimiter, Key, Time, allow, next_availability, RequestEntry,
}
use rate_limiter_as_a_servic.Base.{
  ℤ, pos, lookup, ◌≡◌, some, ◌≤ℤ◌, ◌<ℤ◌, none, false, true, ◌↔◌, List, ◌+ℤ◌, inl, inr, ◌-ℤ◌, arith,
  sym, sub64, ap, refl, sub64_exact, ◌∙◌, int_laws, lookup-insert_self, subst,
}

-- A positive cost is allowed exactly if it fits beside what is still live.
allowed_iff :
    (l : SlidingLogRateLimiter) (key : Key) (p : Policy) (before now : Time) (cost : ℤ)
    → IsValid p
    → lookup key l.policies ≡ some p
    → Fits p before (lookup key l.logs)
    → before ≤ℤ now
    → pos 0 <ℤ cost
    → (is_allowed (allow l none now key cost).0 ≡ true)
      ↔ (total (live l key p now) +ℤ cost ≤ℤ p.limit)
allowed_iff l key p before now cost v known f h positive =
    rw (allow-decide l key p now cost known positive)
      (elim (decide_exact l key p before now v f h cost positive) [
        | inl (fit, e) ↦ rw e (λ _. fit, λ _. refl)
        | inr (over, e) ↦ rw e (λ impossible. cc, λ fit. absurd (omega arith))
      ])

-- The instant that `nextAvailability` computes is that from which the cost fits.
next_availability_iff :
    (p : Policy) (rs : List RequestEntry) (now later : Time) (cost : ℤ)
    → IsValid p
    → Sorted now rs
    → total rs ≤ℤ p.limit
    → cost ≤ℤ p.limit
    → p.limit <ℤ total rs +ℤ cost
    → (next_availability (record { requests = rs; used = total rs }) p cost now ≤ℤ later)
      ↔ (total (kept (later -ℤ p.window) rs) +ℤ cost ≤ℤ p.limit)
unfolding next_availability
next_availability_iff p rs now later cost v sorted within small over =
    let nonneg = total_nonneg now rs sorted in
    let room : sub64 p.limit (total rs) ≡ p.limit -ℤ total rs =
      sub64_exact p.limit (total rs) (omega int_laws, omega (int_laws, v.limit_word)) in
    let required : ℤ = cost -ℤ (p.limit -ℤ total rs) in
    let exact : sub64 cost (p.limit -ℤ total rs) ≡ required =
      sub64_exact cost (p.limit -ℤ total rs) (omega int_laws, omega (int_laws, v.limit_word)) in
    let released =
      release_from_iff p (pos 0) required now later rs sorted (omega arith) (omega int_laws)
        (omega int_laws) (omega (int_laws, v.limit_word)) in
    rw (room, exact)
      (λ reached. omega (int_laws, released.0 reached), λ fit. released.1 (omega int_laws))

-- `reset_at` of a denial is exact, for a valid policy and a positive cost within its limit: if
-- nobody else asks, the same request is allowed at a later instant exactly if that is `reset_at` or
-- after it. The limiter's state is any in which the key's log is in the order of its instants, none
-- of them after the present, its costs are positive, and its counter is their sum and within the
-- limit.
pub denied_until_reset :
    (l : SlidingLogRateLimiter) (key : Key) (p : Policy) (before now later : Time) (cost : ℤ)
    (d : Decision)
    → IsValid p
    → lookup key l.policies ≡ some p
    → Fits p before (lookup key l.logs)
    → before ≤ℤ now
    → now ≤ℤ later
    → pos 0 <ℤ cost
    → cost ≤ℤ p.limit
    → (allow l none now key cost).0 ≡ ok d
    → d.allowed ≡ false
    → (is_allowed (allow (allow l none now key cost).1 none later key cost).0 ≡ true)
      ↔ (d.reset_at ≤ℤ later)
denied_until_reset l key p before now later cost d v known f h h' positive small answer denied =
    let asked = allow-decide l key p now cost known positive in
    let rs : List RequestEntry = live l key p now in
    let sorted = live-Sorted l key p before now v f h in
    let within = total-live-le_limit l key p before now v f h in
    elim (decide_exact l key p before now v f h cost positive) [
      | inl (fit, e) ↦
          let got : ok (approval p rs now cost) ≡ ok d = sym (ap (λ x. x.0) (asked ∙ e)) ∙ answer in
          cc
      | inr (over, e) ↦
          let got : ok (denial p rs now cost) ≡ ok d = sym (ap (λ x. x.0) (asked ∙ e)) ∙ answer in
          let same : d ≡ denial p rs now cost = sym (ok-injective got) in
          let l' : SlidingLogRateLimiter = with_log l key rs (total rs) in
          let fits : Fits p now (lookup key l'.logs) =
            rw lookup-insert_self (refl, sorted, within) in
          let again = allowed_iff l' key p now later cost v known fits h' positive in
          let reached = next_availability_iff p rs now later cost v sorted within small over in
          let kept_later : live l' key p later ≡ kept (later -ℤ p.window) rs =
            rw lookup-insert_self in
          rw (ap (λ x. x.1) (asked ∙ e), ap (λ (x : Decision). x.reset_at) same)
            (
              λ allowed.
                  reached.1
                    (subst (λ xs. total xs +ℤ cost ≤ℤ p.limit) kept_later (again.0 allowed)),
              λ passed.
                  again.1
                    (subst (λ xs. total xs +ℤ cost ≤ℤ p.limit) (sym kept_later) (reached.0 passed)),
            )
    ]
