-- ===== src/SlidingLog/Accounts.antt =====
-- The stored log of a key accounts for the history of answers.
use rate_limiter_as_a_servic.SlidingLog.Frame.{step-policies, step-logs_other}
use rate_limiter_as_a_servic.SlidingLog.Loops.{rolling, total_in-kept, total_in-le_total}
use rate_limiter_as_a_servic.SlidingLog.Requests.{
  total_in, Sorted-mono, total, Sorted, total-append, Sorted-append, total_in-append,
}
use rate_limiter_as_a_servic.SlidingLog.Exact.{
  Fits, requests_of, live, with_log, live-Sorted, total-live-le_limit, approval, step_exact,
}
use rate_limiter_as_a_servic.SlidingLog.{
  SlidingLog, SlidingLogRateLimiter, RequestEntry, step, fresh,
}
use rate_limiter_as_a_servic.History.{
  Log, spent, Request, charge, charge_allowed, exec, Ordered, charge_refused, charge_other,
}
use rate_limiter_as_a_servic.Clock.{Time}
use rate_limiter_as_a_servic.Limiter.{
  Policy, Key, IsValid, Result, key_beq, Decision, key_eq, ok, key_beq_iff,
}
use rate_limiter_as_a_servic.Base.{
  ℤ, pos, Option, ◌≤ℤ◌, lookup, ◌≡◌, some, true, ◌<ℤ◌, ◌∷◌, none, zero-+ℤ, arith,
  lookup-insert_self, ◌+ℤ◌, ◌∙◌, ◌++◌, sym, [], List, refl, ◌⊎◌, subst, false, Bool-cases, Dict,
  inl, if◌then◌else◌, int_laws, inr, ap,
}

-- Against a rolling window that ends at `last`: the history has drawn no more than the limit from
-- it, and until `last` has passed the stored log has what the history has drawn.
abbrev pub Accounts : Policy → Time → Time → ℤ → Option SlidingLog → Type 0
Accounts p last now drawn slot =
    (drawn ≤ℤ p.limit) × (now ≤ℤ last → drawn ≡ total_in (rolling p last) (requests_of slot))

pub Fits-mono :
    (p : Policy) (before now : Time) (slot : Option SlidingLog)
    → before ≤ℤ now
    → Fits p before slot
    → Fits p now slot
Fits-mono p before now none h f = tt
Fits-mono p before now (some log) h f = (f.0, Sorted-mono before now log.requests h f.1, f.2)

module _ (key : Key) (p : Policy) (v : IsValid p) (last : Time) where
  pub record Inv (now : Time) (log : Log) (l : SlidingLogRateLimiter) : Type 0 where
    pub known : lookup key l.policies ≡ some p
    pub fits : Fits p now (lookup key l.logs)
    pub accounts : Accounts p last now (spent key (rolling p last) log) (lookup key l.logs)

  -- A request that draws nothing, at another key or without a change of the log.
  same-Inv :
      (l l' : SlidingLogRateLimiter) (r : Request) (answer : Result Decision) (before : Time)
      (log : Log)
      → Inv before log l
      → before ≤ℤ r.at
      → l'.policies ≡ l.policies
      → lookup key l'.logs ≡ lookup key l.logs
      → charge key (rolling p last) r answer ≡ pos 0
      → Inv r.at ((r, answer) ∷ log) l'
  unfolding spent
  same-Inv l l' r answer before log i h policies logs free = record {
    known = rw policies i.known;
    fits = rw logs (Fits-mono p before r.at (lookup key l.logs) h i.fits);
    accounts = rw (logs, free, zero-+ℤ) (i.accounts.0, λ later. i.accounts.1 (omega arith));
  }

  -- What is kept at `now` still has all that the history has drawn from a window that is open.
  carried :
      (l : SlidingLogRateLimiter) (before now : Time) (log : Log)
      → Inv before log l
      → before ≤ℤ now
      → now ≤ℤ last
      → spent key (rolling p last) log ≡ total_in (rolling p last) (live l key p now)
  carried l before now log i h open_now =
      i.accounts.1 (omega arith)
      ∙ sym (total_in-kept p now last (requests_of (lookup key l.logs)) open_now)

  -- Dropping what has expired changes no window that is still open.
  pruned-Inv :
      (l : SlidingLogRateLimiter) (r : Request) (answer : Result Decision) (before : Time)
      (log : Log)
      → Inv before log l
      → before ≤ℤ r.at
      → charge key (rolling p last) r answer ≡ pos 0
      → let rs = live l key p r.at in Inv r.at ((r, answer) ∷ log) (with_log l key rs (total rs))
  unfolding spent
  pruned-Inv l r answer before log i h free = record {
    known = i.known;
    fits = rw lookup-insert_self (
      refl,
      live-Sorted l key p before r.at v i.fits h,
      total-live-le_limit l key p before r.at v i.fits h,
    );
    accounts =
        rw (lookup-insert_self, free, zero-+ℤ)
          (
            i.accounts.0,
            λ open_.
                i.accounts.1 (omega arith)
                ∙ sym (total_in-kept p r.at last (requests_of (lookup key l.logs)) open_),
          );
  }

  -- A charge at the key.
  charged-Inv :
      (l : SlidingLogRateLimiter) (r : Request) (before : Time) (log : Log)
      → Inv before log l
      → before ≤ℤ r.at
      → key_beq key r.key ≡ true
      → pos 0 <ℤ r.cost
      → let rs = live l key p r.at in
        let entry : RequestEntry = record { at = r.at; cost = r.cost } in
        total rs +ℤ r.cost ≤ℤ p.limit
        → Inv r.at
            ((r, ok (approval p rs r.at r.cost)) ∷ log)
            (with_log (with_log l key rs (total rs)) key (rs ++ entry ∷ []) (total rs +ℤ r.cost))
  unfolding spent
  charged-Inv l r before log i h here positive fit =
      let rs : List RequestEntry = live l key p r.at in
      let entry : RequestEntry = record { at = r.at; cost = r.cost } in
      let sorted : Sorted r.at rs = live-Sorted l key p before r.at v i.fits h in
      record {
        known = i.known;
        fits =
            rw lookup-insert_self
              (sym (total-append rs entry), Sorted-append r.at r.cost rs sorted positive, fit);
        accounts =
            rw
              (
                lookup-insert_self,
                charge_allowed key (rolling p last) r (approval p rs r.at r.cost) refl here,
                total_in-append,
              )
              (
                bound (Bool-cases (rolling p last r.at)),
                λ open_now.
                    ap (λ d. (if rolling p last r.at then r.cost else pos 0) +ℤ d)
                      (carried l before r.at log i h open_now),
              );
      }
    where
      bound :
          (rolling p last r.at ≡ true) ⊎ (rolling p last r.at ≡ false)
          → (if rolling p last r.at then r.cost else pos 0) +ℤ spent key (rolling p last) log
            ≤ℤ p.limit
      bound (inl inside) =
          let drawn = carried l before r.at log i h (ground arith) in
          rw (inside, drawn)
            (omega (
              int_laws,
              total_in-le_total p r.at (rolling p last) (live l key p r.at)
                  (live-Sorted l key p before r.at v i.fits h),
            ))
      bound (inr outside) = rw (outside, zero-+ℤ) i.accounts.0

  -- The same, of the request's own spelling of the key.
  charged_at :
      (l : SlidingLogRateLimiter) (r : Request) (before : Time) (log : Log)
      → Inv before log l
      → before ≤ℤ r.at
      → key_beq key r.key ≡ true
      → pos 0 <ℤ r.cost
      → r.key ≡ key
      → let rs = live l r.key p r.at in
        let entry : RequestEntry = record { at = r.at; cost = r.cost } in
        total rs +ℤ r.cost ≤ℤ p.limit
        → Inv r.at ((r, ok (approval p rs r.at r.cost)) ∷ log) (
            with_log (with_log l r.key rs (total rs)) r.key (rs ++ entry ∷ []) (total rs +ℤ r.cost))
  charged_at l r before log i h here positive e =
      subst
        (λ k.
          let rs = live l k p r.at in
          let entry : RequestEntry = record { at = r.at; cost = r.cost } in
          total rs +ℤ r.cost ≤ℤ p.limit
          → Inv r.at ((r, ok (approval p rs r.at r.cost)) ∷ log)
              (with_log (with_log l k rs (total rs)) k (rs ++ entry ∷ []) (total rs +ℤ r.cost)))
        (sym e) (charged-Inv l r before log i h here positive)

  step-Inv :
      (l : SlidingLogRateLimiter) (r : Request) (before : Time) (log : Log)
      → Inv before log l
      → before ≤ℤ r.at
      → Inv r.at ((r, (step l r).0) ∷ log) (step l r).1
  step-Inv l r before log i h = elim (Bool-cases (key_beq key r.key)) [
    | inl here ↦
        let e : r.key ≡ key = sym ((key_beq_iff key r.key).0 here) in
        elim (step_exact l r p before (rw e i.known) v (rw e i.fits) h) [
          | inl (refused, inl same) ↦
              same-Inv l (step l r).1 r (step l r).0 before log i h (step-policies l r) (rw same)
                (charge_refused key (rolling p last) r (step l r).0 refused)
          | inl (refused, inr pruned) ↦ rw pruned (
              subst
                (λ k.
                  Inv r.at ((r, (step l r).0) ∷ log)
                    (with_log l k (live l k p r.at) (total (live l k p r.at))))
                (sym e)
                (pruned-Inv l r (step l r).0 before log i h
                  (charge_refused key (rolling p last) r (step l r).0 refused)))
          | inr (positive, fit, outcome) ↦
              rw outcome (charged_at l r before log i h here positive e fit)
        ]
    | inr other ↦
        same-Inv l (step l r).1 r (step l r).0 before log i h (step-policies l r)
          (step-logs_other l r key other) (charge_other key (rolling p last) r (step l r).0 other)
  ]

  Inv-mono :
      (l : SlidingLogRateLimiter) (before now : Time) (log : Log)
      → before ≤ℤ now
      → Inv before log l
      → Inv now log l
  Inv-mono l before now log h i = record {
    known = i.known;
    fits = Fits-mono p before now (lookup key l.logs) h i.fits;
    accounts = (i.accounts.0, λ open_now. i.accounts.1 (omega arith));
  }

  pub exec-Inv :
      (policies : Dict Key Policy) (now : Time) (rs : List Request)
      → lookup key policies ≡ some p
      → Ordered now rs
      → let (l, log) = exec step (fresh policies) rs in Inv now log l
  unfolding exec spent lookup
  exec-Inv policies now [] known o = record {
    known = known;
    fits = tt;
    accounts = (omega (arith, v.limit_positive), λ open_now. refl);
  }
  exec-Inv policies now (r ∷ older) known (h, o) =
      let (l, log) = exec step (fresh policies) older in
      Inv-mono (step l r).1 r.at now ((r, (step l r).0) ∷ log) h
        (step-Inv l r r.at log (exec-Inv policies r.at older known o) (omega arith))
