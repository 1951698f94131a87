-- ===== src/FixedWindow/Exact.antt =====
-- `decide` without the machine words: under the invariant no sum wraps around, and the call
-- compares plain integers.
use rate_limiter_as_a_servic.Base.{
  ℤ, pos, ◌+ℤ◌, ◌-ℤ◌, ◌≤ℤ◌, ◌<ℤ◌, max_ℤ, add64, sub64, add64_exact, sub64_exact, int_laws, ≤ℤ_or_<,
  eq_of_parts, Option-cases, ◌≡◌, ◌⊎◌, inl, inr, Option, none, some, true, false, arith, lookup,
  insert, -ℤ_parts, +ℤ_parts,
}
use rate_limiter_as_a_servic.Clock.{Time, sub, truncate, milliseconds}
use rate_limiter_as_a_servic.Limiter.{Key, key_eq, Policy, Decision, ok, IsValid}
use rate_limiter_as_a_servic.History.{Request, is_allowed}
use rate_limiter_as_a_servic.FixedWindow.{
  allow, step, FixedWindow, FixedWindowRateLimiter, window_for, window_or_zero, decide, allow,
  Request,
}

-- What a stored window may hold.
abbrev pub Fits : Policy → Option FixedWindow → Type 0
Fits p none = Unit
Fits p (some w) = (pos 0 ≤ℤ w.used) × (w.used ≤ℤ p.limit)

abbrev pub denial : Policy → FixedWindow → Time → Decision
denial p w now = record {
  allowed = false;
  limit = p.limit;
  remaining = p.limit -ℤ w.used;
  reset_at = w.start +ℤ p.window;
  retry_after_ms = max_ℤ (pos 1) (milliseconds (sub (w.start +ℤ p.window) now));
}

abbrev pub approval : Policy → FixedWindow → ℤ → Decision
approval p w cost = record {
  allowed = true;
  limit = p.limit;
  remaining = p.limit -ℤ (w.used +ℤ cost);
  reset_at = w.start +ℤ p.window;
  retry_after_ms = pos 0;
}

abbrev pub charged : FixedWindowRateLimiter → Key → FixedWindow → ℤ → FixedWindowRateLimiter
charged l key w cost = record l {
  windows = insert key (record { start = w.start; used = w.used +ℤ cost }) l.windows;
}

module _ (l : FixedWindowRateLimiter) (key : Key) (p : Policy) (now : Time) where
  pub window_for-start : (window_for l key p now).start ≡ truncate now p.window
  unfolding window_for
  window_for-start =
      ground
        (arith, eq_of_parts (window_or_zero (lookup key l.windows)).start (truncate now p.window))

  pub window_for-Fits :
      IsValid p → Fits p (lookup key l.windows) → Fits p (some (window_for l key p now))
  unfolding window_for
  window_for-Fits v f = elim (Option-cases (lookup key l.windows)) [
    | inl e ↦ rw (e, window_for) (ground arith)
    | inr (w, e) ↦ ground arith
  ]

  -- The call charges the whole cost if the window has room for it, and else changes nothing.
  pub decide_exact :
      (cost : ℤ)
      → IsValid p
      → Fits p (lookup key l.windows)
      → pos 0 <ℤ cost
      → let w = window_for l key p now in
        ((w.used +ℤ cost ≤ℤ p.limit)
          × (decide l key p now cost ≡ (ok (approval p w cost), charged l key w cost)))
        ⊎ ((p.limit <ℤ w.used +ℤ cost) × (decide l key p now cost ≡ (ok (denial p w now), l)))
  unfolding decide
  decide_exact cost v f positive =
      let w : FixedWindow = window_for l key p now in
      let fits : Fits p (some w) = window_for-Fits v f in
      let room : sub64 p.limit w.used ≡ p.limit -ℤ w.used =
        sub64_exact p.limit w.used (omega int_laws, omega int_laws) in
      elim (≤ℤ_or_< (w.used +ℤ cost) p.limit) [
        | inl fit ↦
            let sum : add64 w.used cost ≡ w.used +ℤ cost =
              add64_exact w.used cost (omega int_laws, omega int_laws) in
            let left : sub64 p.limit (w.used +ℤ cost) ≡ p.limit -ℤ (w.used +ℤ cost) =
              sub64_exact p.limit (w.used +ℤ cost) (omega int_laws, omega int_laws) in
            inl (
              fit,
              rw (room, sum, left) (ground (arith, -ℤ_parts p.limit w.used, +ℤ_parts w.used cost)),
            )
        | inr over ↦
            inr (over, rw room (ground (arith, -ℤ_parts p.limit w.used, +ℤ_parts w.used cost)))
      ]

-- A call is refused and changes nothing, or is within the quota and charged.
pub step_exact :
    (l : FixedWindowRateLimiter) (r : Request) (p : Policy)
    → lookup r.key l.policies ≡ some p
    → IsValid p
    → Fits p (lookup r.key l.windows)
    → let w = window_for l r.key p r.at in
      ((is_allowed (step l r).0 ≡ false) × ((step l r).1 ≡ l))
      ⊎ ((pos 0 <ℤ r.cost)
          × (w.used +ℤ r.cost ≤ℤ p.limit)
          × (step l r ≡ (ok (approval p w r.cost), charged l r.key w r.cost)))
unfolding allow
step_exact l r p known v f = elim (≤ℤ_or_< r.cost (pos 0)) [
  | inl refused ↦ inl (ground arith)
  | inr positive ↦ elim (decide_exact l r.key p r.at r.cost v f positive) [
    | inl (fit, e) ↦ elim (Option-cases r.ctx_err) [
      | inl live ↦ inr (positive, fit, ground arith)
      | inr (cause, done) ↦ inl (ground arith)
    ]
    | inr (over, e) ↦ inl (ground arith)
  ]
]

-- A positive cost at a known key is decided.
pub allow-decide :
    (l : FixedWindowRateLimiter) (key : Key) (p : Policy) (now : Time) (cost : ℤ)
    → lookup key l.policies ≡ some p
    → pos 0 <ℤ cost
    → allow l none now key cost ≡ decide l key p now cost
unfolding allow
allow-decide l key p now cost known positive = ground arith
