-- ===== src/FixedWindow/Retry.antt =====
-- When a denied request may be repeated.
use rate_limiter_as_a_servic.History.{is_allowed}
use rate_limiter_as_a_servic.FixedWindow.Accounts.{Late, window_for-used, used_in}
use rate_limiter_as_a_servic.FixedWindow.Exact.{
  Fits, window_for-start, decide_exact, allow-decide, approval, denial,
}
use rate_limiter_as_a_servic.Clock.{Time, truncate, lt-truncate-add, truncate_unique, truncate-le}
use rate_limiter_as_a_servic.Limiter.{Key, Policy, IsValid, Decision, ok, key_eq, ok-injective}
use rate_limiter_as_a_servic.FixedWindow.{
  allow, FixedWindowRateLimiter, Key, Policy, Time, Decision, ok, FixedWindow, window_for,
}
use rate_limiter_as_a_servic.Base.{
  ℤ, pos, lookup, ◌≡◌, some, ◌<ℤ◌, ◌≤ℤ◌, none, false, ◌+ℤ◌, true, Option, arith, refl, int_laws,
  ◌∙◌, inl, inr, ap, pos_part, neg_part, sym, subst, ◌↔◌, ≤ℤ_or_<,
}

used_in_later :
    (p : Policy) (now start : Time) (slot : Option FixedWindow)
    → Late p now slot
    → truncate now p.window <ℤ start
    → used_in start slot ≡ pos 0
used_in_later p now start none late h = refl
used_in_later p now start (some w) late h = ground arith

-- A cost that the policy can serve at all has room once the window has ended.
allowed_from_end :
    (l : FixedWindowRateLimiter) (key : Key) (p : Policy) (now later : Time) (cost : ℤ)
    → IsValid p
    → lookup key l.policies ≡ some p
    → Fits p (lookup key l.windows)
    → Late p now (lookup key l.windows)
    → pos 0 <ℤ cost
    → cost ≤ℤ p.limit
    → truncate now p.window +ℤ p.window ≤ℤ later
    → is_allowed (allow l none later key cost).0 ≡ true
allowed_from_end l key p now later cost v known f late positive small h =
    let after : truncate now p.window <ℤ truncate later p.window =
      omega (int_laws, lt-truncate-add later p.window v.window_positive) in
    let empty : (window_for l key p later).used ≡ pos 0 =
      window_for-used l key p later
      ∙ used_in_later p now (truncate later p.window) (lookup key l.windows) late after in
    elim (decide_exact l key p later cost v f positive) [
      | inl (fit, e) ↦ rw (allow-decide l key p later cost known positive, e)
      | inr (over, e) ↦ absurd (omega (int_laws, ap pos_part empty, ap neg_part empty))
    ]

window_for_same :
    (l : FixedWindowRateLimiter) (key : Key) (p : Policy) (now later : Time)
    → truncate later p.window ≡ truncate now p.window
    → window_for l key p later ≡ window_for l key p now
unfolding window_for
window_for_same l key p now later e = rw e

-- As long as the window lasts, a cost that has no room stays denied.
refused_within :
    (l : FixedWindowRateLimiter) (key : Key) (p : Policy) (now later : Time) (cost : ℤ)
    → IsValid p
    → lookup key l.policies ≡ some p
    → Fits p (lookup key l.windows)
    → pos 0 <ℤ cost
    → p.limit <ℤ (window_for l key p now).used +ℤ cost
    → now ≤ℤ later
    → later <ℤ truncate now p.window +ℤ p.window
    → is_allowed (allow l none later key cost).0 ≡ false
refused_within l key p now later cost v known f positive over lo hi =
    let unchanged : truncate later p.window ≡ truncate now p.window =
      truncate_unique now later p.window v.window_positive
        (omega (int_laws, truncate-le now p.window v.window_positive)) hi in
    let same = window_for_same l key p now later unchanged in
    elim (decide_exact l key p later cost v f positive) [
      | inl (fit, e) ↦
          absurd
            (omega (arith, over, subst (λ (w : FixedWindow). w.used +ℤ cost ≤ℤ p.limit) same fit))
      | inr (still, e) ↦ rw (allow-decide l key p later cost known positive, e)
    ]

-- `reset_at` of a denial is exact, for a valid policy and a positive cost within its limit: if
-- nobody else asks, the same request is allowed at a later instant exactly if that is `reset_at` or
-- after it. The limiter's state is any in which the key's window has used at most the limit and
-- does not begin after the present one.
pub allowed_at_reset :
    (l : FixedWindowRateLimiter) (key : Key) (p : Policy) (now later : Time) (cost : ℤ)
    (d : Decision)
    → IsValid p
    → lookup key l.policies ≡ some p
    → Fits p (lookup key l.windows)
    → Late p now (lookup key l.windows)
    → pos 0 <ℤ cost
    → cost ≤ℤ p.limit
    → now ≤ℤ later
    → (allow l none now key cost).0 ≡ ok d
    → d.allowed ≡ false
    → (is_allowed (allow (allow l none now key cost).1 none later key cost).0 ≡ true)
      ↔ (d.reset_at ≤ℤ later)
allowed_at_reset l key p now later cost d v known f late positive small h answer denied =
    let w : FixedWindow = window_for l key p now in
    let asked = allow-decide l key p now cost known positive in
    let ends : w.start +ℤ p.window ≡ truncate now p.window +ℤ p.window =
      ap (λ t. t +ℤ p.window) (window_for-start l key p now) in
    elim (decide_exact l key p now cost v f positive) [
      | inl (fit, e) ↦
          let got : ok (approval p w cost) ≡ ok d = sym (ap (λ x. x.0) (asked ∙ e)) ∙ answer in cc
      | inr (over, e) ↦
          let got : ok (denial p w now) ≡ ok d = sym (ap (λ x. x.0) (asked ∙ e)) ∙ answer in
          let same : d ≡ denial p w now = sym (ok-injective got) in
          rw (ap (λ x. x.1) (asked ∙ e), ap (λ (x : Decision). x.reset_at) same, ends)
            (elim (≤ℤ_or_< (truncate now p.window +ℤ p.window) later) [
              | inl ended ↦ (
                λ allowed. ended,
                λ reached.
                    allowed_from_end l key p now later cost v known f late positive small ended,
              )
              | inr lasts ↦
                  let refused =
                    refused_within l key p now later cost v known f positive over h lasts in
                  (λ allowed. cc, λ reached. absurd (omega arith))
            ])
    ]
