-- ===== src/FixedWindow/Quota.antt =====
-- What the fixed-window limiter promises, against the history of answers.
use rate_limiter_as_a_servic.FixedWindow.Exact.{window_for-start, decide_exact}
use rate_limiter_as_a_servic.FixedWindow.Accounts.{
  in_window, exec-Inv, total-le_limit, window_for-used, total-used_in,
}
use rate_limiter_as_a_servic.History.{Request, Ordered, spent, exec}
use rate_limiter_as_a_servic.Clock.{Time, truncate, milliseconds, sub}
use rate_limiter_as_a_servic.FixedWindow.{
  allow, Policy, Time, Request, step, fresh, ok, FixedWindow, window_for, decide,
}
use rate_limiter_as_a_servic.Limiter.{Key, Policy, IsValid, ok, key_eq}
use rate_limiter_as_a_servic.Base.{
  ℤ, Dict, List, lookup, ◌≡◌, some, pos, ◌<ℤ◌, ◌≤ℤ◌, none, if◌then◌else◌, leb_ℤ, ◌+ℤ◌, true, ◌-ℤ◌,
  false, max_ℤ, ◌∙◌, sym, arith, inl, inr, refl, leb_ℤ-true, subst, leb_ℤ-false,
}

-- In every aligned window the requests that a key is allowed cost at most the limit of its policy,
-- for any history in which the clock does not go back, whatever other keys ask.
pub spent-le-limit :
    (key : Key) (p : Policy) (s now : Time) (policies : Dict Key Policy) (rs : List Request)
    → IsValid p
    → lookup key policies ≡ some p
    → Ordered now rs
    → spent key (in_window p s) (exec step (fresh policies) rs).1 ≤ℤ p.limit
spent-le-limit key p s now policies rs v known o =
    let i = exec-Inv key p v s policies now rs known o in
    let (l, log) = exec step (fresh policies) rs in
    total-le_limit p s (truncate now p.window) (spent key (in_window p s) log) now refl
      (lookup key l.windows) v i.accounts

-- For a key with a valid policy and a history in which the clock does not go back, up to the
-- present, the answer is that of an exact rule over the history: with `drawn` the cost allowed so
-- far in the current aligned window, a positive cost is allowed exactly if `drawn + cost` is within
-- the limit. The answer reports what is left, the end of the window, and a wait of at least a
-- millisecond if the request is denied.
pub step-answer :
    (key : Key) (p : Policy) (now : Time) (cost : ℤ) (policies : Dict Key Policy)
    (rs : List Request)
    → IsValid p
    → lookup key policies ≡ some p
    → Ordered now rs
    → pos 0 <ℤ cost
    → let (l, log) = exec step (fresh policies) rs in
      let start = truncate now p.window in
      let drawn = spent key (in_window p start) log in
      (allow l none now key cost).0 ≡ (
        if leb_ℤ (drawn +ℤ cost) p.limit
        then ok (record {
          allowed = true;
          limit = p.limit;
          remaining = p.limit -ℤ (drawn +ℤ cost);
          reset_at = start +ℤ p.window;
          retry_after_ms = pos 0;
        })
        else ok (record {
          allowed = false;
          limit = p.limit;
          remaining = p.limit -ℤ drawn;
          reset_at = start +ℤ p.window;
          retry_after_ms = max_ℤ (pos 1) (milliseconds (sub (start +ℤ p.window) now));
        }))
unfolding allow
step-answer key p now cost policies rs v known o positive =
    let start : Time = truncate now p.window in
    let i = exec-Inv key p v start policies now rs known o in
    let (l, log) = exec step (fresh policies) rs in
    let w : FixedWindow = window_for l key p now in
    let drawn : ℤ = spent key (in_window p start) log in
    let begins : w.start ≡ start = window_for-start l key p now in
    let used : w.used ≡ drawn =
      window_for-used l key p now
      ∙ sym (
          total-used_in p start start drawn now refl (lookup key l.windows) i.late i.accounts
            (ground arith)) in
    let asked : allow l none now key cost ≡ decide l key p now cost = ground (arith, i.known) in
    elim (decide_exact l key p now cost v i.fits positive) [
      | inl (fit, e) ↦
          rw (asked, e, begins, used)
            (rw (leb_ℤ-true (drawn +ℤ cost) p.limit (subst (λ u. u +ℤ cost ≤ℤ p.limit) used fit)))
      | inr (over, e) ↦
          rw (asked, e, begins, used)
            (rw (leb_ℤ-false (drawn +ℤ cost) p.limit (subst (λ u. p.limit <ℤ u +ℤ cost) used over)))
    ]
