-- ===== src/FixedWindow/Accounts.antt =====
-- The stored window of a key accounts for the history of answers.
use rate_limiter_as_a_servic.Base.{
  [], ◌∷◌, ℤ, pos, ◌≤ℤ◌, ◌<ℤ◌, eqb_ℤ, ◌≡◌, Bool, true, Option, none, some, arith, lookup, ◌∷◌,
  Bool-cases, inl, inr, zero-+ℤ, Option-cases, if◌then◌else◌, ◌+ℤ◌, ap, int_laws, pos_part,
  eq_of_parts, neg_part, sym, lookup-insert_self, subst, Dict, refl, List,
}
use rate_limiter_as_a_servic.Clock.{Time, truncate, equal, truncate_mono}
use rate_limiter_as_a_servic.Limiter.{Key, key_eq, Policy, IsValid, key_beq, ok, key_beq_iff}
use rate_limiter_as_a_servic.History.{
  Request, Log, spent, charge, charge_other, charge_refused, charge_allowed, exec, Ordered,
}
use rate_limiter_as_a_servic.FixedWindow.{
  FixedWindow, FixedWindowRateLimiter, step, Result, Decision, window_for, ok, fresh,
}
use rate_limiter_as_a_servic.FixedWindow.Exact.{
  Fits, approval, charged, step_exact, window_for-start, window_for-Fits,
}
use rate_limiter_as_a_servic.FixedWindow.Frame.{step-policies, step-windows_other}

-- The instants of the aligned window that begins at `s`.
abbrev pub in_window : Policy → Time → Time → Bool
in_window p s t = equal (truncate t p.window) s

-- The stored window is not later than the one of the clock.
abbrev pub Late : Policy → Time → Option FixedWindow → Type 0
Late p now none = Unit
Late p now (some w) = w.start ≤ℤ truncate now p.window

-- The stored counter is what the history has drawn from its window; later windows are untouched.
abbrev pub Accounts : Policy → Time → ℤ → Option FixedWindow → Type 0
Accounts p s total none = total ≡ pos 0
Accounts p s total (some w) =
    (total ≤ℤ p.limit) × (eqb_ℤ w.start s ≡ true → total ≡ w.used) × (w.start <ℤ s → total ≡ pos 0)

Late-mono :
    (p : Policy) (slot : Option FixedWindow) (before now : Time)
    → IsValid p
    → before ≤ℤ now
    → Late p before slot
    → Late p now slot
Late-mono p none before now v h late = tt
Late-mono p (some w) before now v h late =
    omega (arith, truncate_mono before now p.window v.window_positive h)

-- What the slot has used of the window that begins at `start`.
abbrev pub used_in : Time → Option FixedWindow → ℤ
used_in start none = pos 0
used_in start (some w) = if equal w.start start then w.used else pos 0

pub window_for-used :
    (l : FixedWindowRateLimiter) (key : Key) (p : Policy) (now : Time)
    → (window_for l key p now).used ≡ used_in (truncate now p.window) (lookup key l.windows)
unfolding window_for
window_for-used l key p now = elim (Option-cases (lookup key l.windows)) [
  | inl e ↦ rw (e, window_for) (ground arith)
  | inr (w, e) ↦ rw (e, window_for) (ground arith)
]

module _ (p : Policy) (s start total : ℤ) (now : Time)
    (current : truncate now p.window ≡ start) where
  -- What the history has drawn from the current window is what the limiter has on its counter.
  pub total-used_in :
      (slot : Option FixedWindow)
      → Late p now slot
      → Accounts p s total slot
      → equal start s ≡ true
      → total ≡ used_in start slot
  total-used_in none late a now_s = a
  total-used_in (some w) late a now_s = elim (Bool-cases (equal w.start start)) [
    | inl same ↦ rw same (a.1 (ground arith))
    | inr earlier ↦ rw earlier (a.2 (ground (arith, ap pos_part current, ap neg_part current)))
  ]

  total-later :
      (slot : Option FixedWindow)
      → Late p now slot
      → Accounts p s total slot
      → start <ℤ s
      → total ≡ pos 0
  total-later none late a h = a
  total-later (some w) late a h = a.2 (omega (arith, ap pos_part current, ap neg_part current))

  pub total-le_limit :
      (slot : Option FixedWindow) → IsValid p → Accounts p s total slot → total ≤ℤ p.limit
  total-le_limit none v a = rw a (omega (arith, v.limit_positive))
  total-le_limit (some w) v a = a.0

  charge-Accounts :
      (cost : ℤ) (slot : Option FixedWindow)
      → IsValid p
      → Late p now slot
      → Accounts p s total slot
      → used_in start slot +ℤ cost ≤ℤ p.limit
      → Accounts p s
          ((if equal start s then cost else pos 0) +ℤ total)
          (some (record { start = start; used = used_in start slot +ℤ cost }))
  charge-Accounts cost slot v late a fit = elim (Bool-cases (equal start s)) [
    | inl same ↦
        let drawn = total-used_in slot late a same in
        rw (same, drawn)
          (omega int_laws, λ _. eq_of_parts _ _ (omega int_laws), λ h. absurd (ground arith))
    | inr other ↦
        rw (other, zero-+ℤ) (total-le_limit slot v a, λ same. cc, λ h. total-later slot late a h)
  ]

module _ (key : Key) (p : Policy) (v : IsValid p) (s : Time) where
  pub record Inv (now : Time) (log : Log) (l : FixedWindowRateLimiter) : Type 0 where
    pub known : lookup key l.policies ≡ some p
    pub fits : Fits p (lookup key l.windows)
    pub late : Late p now (lookup key l.windows)
    pub accounts : Accounts p s (spent key (in_window p s) log) (lookup key l.windows)

  -- A request at another key, or one that is not allowed, leaves the window alone.
  same-Inv :
      (l l' : FixedWindowRateLimiter) (r : Request) (answer : Result Decision) (before : Time)
      (log : Log)
      → Inv before log l
      → before ≤ℤ r.at
      → l'.policies ≡ l.policies
      → lookup key l'.windows ≡ lookup key l.windows
      → charge key (in_window p s) r answer ≡ pos 0
      → Inv r.at ((r, answer) ∷ log) l'
  unfolding spent
  same-Inv l l' r answer before log i h policies windows free = record {
    known = rw policies i.known;
    fits = rw windows i.fits;
    late = rw windows (Late-mono p (lookup key l.windows) before r.at v h i.late);
    accounts = rw (windows, free, zero-+ℤ) i.accounts;
  }

  -- A charge at the key.
  charged-Inv :
      (l : FixedWindowRateLimiter) (r : Request) (before : Time) (log : Log)
      → Inv before log l
      → before ≤ℤ r.at
      → key_beq key r.key ≡ true
      → let w = window_for l key p r.at in
        w.used +ℤ r.cost ≤ℤ p.limit
        → pos 0 <ℤ r.cost
        → Inv r.at ((r, ok (approval p w r.cost)) ∷ log) (charged l key w r.cost)
  unfolding spent
  charged-Inv l r before log i h here fit positive =
      let w : FixedWindow = window_for l key p r.at in
      let slot : Option FixedWindow = lookup key l.windows in
      let start : Time = truncate r.at p.window in
      let late : Late p r.at slot = Late-mono p slot before r.at v h i.late in
      let begins : w.start ≡ start = window_for-start l key p r.at in
      let drawn : w.used ≡ used_in start slot = window_for-used l key p r.at in
      record {
        known = i.known;
        fits = rw lookup-insert_self (omega (int_laws, window_for-Fits l key p r.at v i.fits), fit);
        late = rw lookup-insert_self (omega (arith, ap pos_part begins, ap neg_part begins));
        accounts = rw lookup-insert_self (
            rw (charge_allowed key (in_window p s) r (approval p w r.cost) refl here, drawn, begins)
              (charge-Accounts p s start (spent key (in_window p s) log) r.at refl r.cost slot v
                late i.accounts (rw (← drawn) fit)));
      }

  step-Inv :
      (l : FixedWindowRateLimiter) (r : Request) (before : Time) (log : Log)
      → Inv before log l
      → before ≤ℤ r.at
      → Inv r.at ((r, (step l r).0) ∷ log) (step l r).1
  step-Inv l r before log i h = elim (Bool-cases (key_beq key r.key)) [
    | inl here ↦
        let e : r.key ≡ key = sym ((key_beq_iff key r.key).0 here) in
        elim (step_exact l r p (rw e i.known) v (rw e i.fits)) [
          | inl (refused, same) ↦
              same-Inv l (step l r).1 r (step l r).0 before log i h (step-policies l r) (rw same)
                (charge_refused key (in_window p s) r (step l r).0 refused)
          | inr (positive, fit, outcome) ↦ rw outcome (
              subst
                (λ k.
                  Inv r.at ((r, ok (approval p (window_for l k p r.at) r.cost)) ∷ log)
                    (charged l k (window_for l k p r.at) r.cost))
                (sym e)
                (charged-Inv l r before log i h here
                  (subst (λ k. (window_for l k p r.at).used +ℤ r.cost ≤ℤ p.limit) e fit) positive))
        ]
    | inr other ↦
        same-Inv l (step l r).1 r (step l r).0 before log i h (step-policies l r)
          (step-windows_other l r key other) (charge_other key (in_window p s) r (step l r).0 other)
  ]

  Inv-mono :
      (l : FixedWindowRateLimiter) (before now : Time) (log : Log)
      → before ≤ℤ now
      → Inv before log l
      → Inv now log l
  Inv-mono l before now log h i = record {
    known = i.known;
    fits = i.fits;
    late = Late-mono p (lookup key l.windows) before now v h i.late;
    accounts = i.accounts;
  }

  pub exec-Inv :
      (policies : Dict Key Policy) (now : Time) (rs : List Request)
      → lookup key policies ≡ some p
      → Ordered now rs
      → let (l, log) = exec step (fresh policies) rs in Inv now log l
  unfolding exec spent lookup
  exec-Inv policies now [] known o = record { known = known; fits = tt; late = tt; accounts = refl }
  exec-Inv policies now (r ∷ older) known (h, o) =
      let (l, log) = exec step (fresh policies) older in
      Inv-mono (step l r).1 r.at now ((r, (step l r).0) ∷ log) h
        (step-Inv l r r.at log (exec-Inv policies r.at older known o) (omega arith))
