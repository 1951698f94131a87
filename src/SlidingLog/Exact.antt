-- ===== src/SlidingLog/Exact.antt =====
-- `decide` without the machine words: under the invariant no sum wraps around.
use rate_limiter_as_a_servic.History.{Request, is_allowed}
use rate_limiter_as_a_servic.SlidingLog.Loops.{cutoff_exact, drop_expired_exact}
use rate_limiter_as_a_servic.SlidingLog.Requests.{
  kept, total, Sorted, kept-Sorted, total-kept-le, Sorted-mono, total_nonneg,
}
use rate_limiter_as_a_servic.Clock.{Time, milliseconds, sub}
use rate_limiter_as_a_servic.SlidingLog.{
  SlidingLogRateLimiter, SlidingLog, RequestEntry, log_or_zero, next_availability, active_log,
  decide, oldest, allow, Request, step,
}
use rate_limiter_as_a_servic.Limiter.{Policy, Key, IsValid, Decision, key_eq, ok}
use rate_limiter_as_a_servic.Base.{
  ℤ, pos, Option, List, some, ◌≡◌, insert, lookup, ◌-ℤ◌, true, ◌≤ℤ◌, false, arith, ◌+ℤ◌, max_ℤ,
  subst, ◌<ℤ◌, none, refl, ◌++◌, ◌∷◌, [], ◌⊎◌, sub64, sub64_exact, int_laws, ≤ℤ_or_<, inl, add64,
  add64_exact, -ℤ_parts, +ℤ_parts, inr, Option-cases,
}

abbrev pub requests_of : Option SlidingLog → List RequestEntry
requests_of slot = (log_or_zero slot).requests

-- What a stored log may hold.
abbrev pub Fits : Policy → Time → Option SlidingLog → Type 0
Fits p now none = Unit
Fits p now (some log) =
    (log.used ≡ total log.requests) × Sorted now log.requests × (log.used ≤ℤ p.limit)

-- The requests that count at `now`.
abbrev pub live : SlidingLogRateLimiter → Key → Policy → Time → List RequestEntry
live l key p now = kept (now -ℤ p.window) (requests_of (lookup key l.logs))

abbrev pub with_log : SlidingLogRateLimiter → Key → List RequestEntry → ℤ → SlidingLogRateLimiter
with_log l key requests used = record l {
  logs = insert key (record { requests = requests; used = used }) l.logs;
}

abbrev pub denial : Policy → List RequestEntry → Time → ℤ → Decision
denial p rs now cost =
    let reset_at = next_availability (record { requests = rs; used = total rs }) p cost now in
    record {
      allowed = false;
      limit = p.limit;
      remaining = p.limit -ℤ total rs;
      reset_at = reset_at;
      retry_after_ms = max_ℤ (pos 1) (milliseconds (sub reset_at now));
    }

abbrev pub approval : Policy → List RequestEntry → Time → ℤ → Decision
approval p rs now cost = record {
  allowed = true;
  limit = p.limit;
  remaining = p.limit -ℤ (total rs +ℤ cost);
  reset_at = oldest rs (record { at = now; cost = cost }) +ℤ p.window;
  retry_after_ms = pos 0;
}

pub Fits-requests :
    (p : Policy) (now : Time) (slot : Option SlidingLog)
    → IsValid p
    → Fits p now slot
    → ((log_or_zero slot).used ≡ total (requests_of slot))
      × Sorted now (requests_of slot)
      × (total (requests_of slot) ≤ℤ p.limit)
Fits-requests p now none v f = (refl, tt, omega (arith, v.limit_positive))
Fits-requests p now (some log) v f = (f.0, f.1, subst (λ u. u ≤ℤ p.limit) f.0 f.2)

module _ (l : SlidingLogRateLimiter) (key : Key) (p : Policy) (before now : Time) (v : IsValid p)
    (f : Fits p before (lookup key l.logs)) (h : before ≤ℤ now) where
  pub live-Sorted : Sorted now (live l key p now)
  live-Sorted =
      kept-Sorted (now -ℤ p.window) now (requests_of (lookup key l.logs))
        (Sorted-mono before now _ h (Fits-requests p before (lookup key l.logs) v f).1)

  pub total-live-le_limit : total (live l key p now) ≤ℤ p.limit
  total-live-le_limit =
      let (used, sorted, within) = Fits-requests p before (lookup key l.logs) v f in
      omega (
        arith,
        within,
        total-kept-le (now -ℤ p.window) before (requests_of (lookup key l.logs)) sorted,
      )

  active_log_exact :
      active_log l key p now
      ≡ record { requests = live l key p now; used = total (live l key p now) }
  unfolding active_log
  active_log_exact =
      let (used, sorted, within) = Fits-requests p before (lookup key l.logs) v f in
      rw (cutoff_exact p now v, used)
        (drop_expired_exact (now -ℤ p.window) before (requests_of (lookup key l.logs)) sorted
          (omega (arith, within, v.limit_word)))

  -- The call charges the whole cost if it fits beside what the window has, and else only drops
  -- what has expired.
  pub decide_exact :
      (cost : ℤ)
      → pos 0 <ℤ cost
      → let rs = live l key p now in
        let entry : RequestEntry = record { at = now; cost = cost } in
        let pruned = with_log l key rs (total rs) in
        ((total rs +ℤ cost ≤ℤ p.limit)
          × (decide l key p now cost ≡ (
            ok (approval p rs now cost),
            with_log pruned key (rs ++ entry ∷ []) (total rs +ℤ cost),
          )))
        ⊎ ((p.limit <ℤ total rs +ℤ cost)
            × (decide l key p now cost ≡ (ok (denial p rs now cost), pruned)))
  unfolding decide
  decide_exact cost positive =
      let rs : List RequestEntry = live l key p now in
      let nonneg = total_nonneg now rs live-Sorted in
      let room : sub64 p.limit (total rs) ≡ p.limit -ℤ total rs =
        sub64_exact p.limit (total rs)
          (omega (int_laws, total-live-le_limit), omega (int_laws, v.limit_word)) in
      elim (≤ℤ_or_< (total rs +ℤ cost) p.limit) [
        | inl fit ↦
            let sum : add64 (total rs) cost ≡ total rs +ℤ cost =
              add64_exact (total rs) cost (omega int_laws, omega (int_laws, v.limit_word)) in
            let left : sub64 p.limit (total rs +ℤ cost) ≡ p.limit -ℤ (total rs +ℤ cost) =
              sub64_exact p.limit (total rs +ℤ cost)
                (omega int_laws, omega (int_laws, v.limit_word)) in
            inl (
              fit,
              rw (active_log_exact, room, sum, left)
                  (ground (arith, -ℤ_parts p.limit (total rs), +ℤ_parts (total rs) cost)),
            )
        | inr over ↦ inr (
          over,
          rw (active_log_exact, room)
              (ground (arith, -ℤ_parts p.limit (total rs), +ℤ_parts (total rs) cost)),
        )
      ]

-- A positive cost at a known key is decided.
pub allow-decide :
    (l : SlidingLogRateLimiter) (key : Key) (p : Policy) (now : Time) (cost : ℤ)
    → lookup key l.policies ≡ some p
    → pos 0 <ℤ cost
    → allow l none now key cost ≡ decide l key p now cost
unfolding allow
allow-decide l key p now cost known positive = ground arith

-- A call is refused and changes nothing, is denied and drops what has expired, or is charged.
pub step_exact :
    (l : SlidingLogRateLimiter) (r : Request) (p : Policy) (before : Time)
    → lookup r.key l.policies ≡ some p
    → IsValid p
    → Fits p before (lookup r.key l.logs)
    → before ≤ℤ r.at
    → let rs = live l r.key p r.at in
      let entry : RequestEntry = record { at = r.at; cost = r.cost } in
      let pruned = with_log l r.key rs (total rs) in
      ((is_allowed (step l r).0 ≡ false) × (((step l r).1 ≡ l) ⊎ ((step l r).1 ≡ pruned)))
      ⊎ ((pos 0 <ℤ r.cost)
          × (total rs +ℤ r.cost ≤ℤ p.limit)
          × (step l r ≡ (
            ok (approval p rs r.at r.cost),
            with_log pruned r.key (rs ++ entry ∷ []) (total rs +ℤ r.cost),
          )))
unfolding allow
step_exact l r p before known v f h = elim (Option-cases r.ctx_err) [
  | inr (cause, done) ↦ inl (ground arith, inl (ground arith))
  | inl alive ↦ elim (≤ℤ_or_< r.cost (pos 0)) [
    | inl refused ↦ inl (ground arith, inl (ground arith))
    | inr positive ↦ elim (decide_exact l r.key p before r.at v f h r.cost positive) [
      | inl (fit, e) ↦ inr (positive, fit, ground arith)
      | inr (over, e) ↦ inl (ground arith, inr (ground arith))
    ]
  ]
]
