-- ===== src/SlidingLog/Loops.antt =====
-- The two loops of the sliding log, computed over plain integers, and the rolling window.
use rate_limiter_as_a_servic.SlidingLog.Requests.{
  Sorted, Between, total, total_in, kept, total_nonneg, total-kept-le,
}
use rate_limiter_as_a_servic.Clock.{Time, after}
use rate_limiter_as_a_servic.SlidingLog.{drop_expired, Time, release_from, RequestEntry}
use rate_limiter_as_a_servic.Limiter.{Policy, IsValid}
use rate_limiter_as_a_servic.Base.{
  ℤ, pos, Bool, List, ◌+ℤ◌, sub64, ◌-ℤ◌, ◌≡◌, ◌≤ℤ◌, ◌&&◌, sub64_exact, ◌<ℤ◌, leb_ℤ, int_laws,
  max_int64, arith, ◌∷◌, eq_of_parts, Bool-cases, true, ◌↔◌, inl, ap, [], inr, sym, refl, false,
  ◌∙◌, -ℤ_parts, zero-+ℤ, leb_ℤ-true, add64, add64_exact, ≤ℤ_or_<, +ℤ_parts, leb_ℤ-false, subst,
}

-- The window of length `p.window` that ends at `last`, its end included.
abbrev pub rolling : Policy → Time → Time → Bool
rolling p last t = after t (last -ℤ p.window) && leb_ℤ t last

pub cutoff_exact :
    (p : Policy) (now : Time) → IsValid p → now +ℤ sub64 (pos 0) p.window ≡ now -ℤ p.window
cutoff_exact p now v =
    rw (sub64_exact (pos 0) p.window (omega int_laws, omega int_laws))
      (eq_of_parts _ _ (omega int_laws))

-- The loop of `activeLog` keeps what is after the cutoff, with its sum.
pub drop_expired_exact :
    (cutoff now : Time) (rs : List RequestEntry)
    → Sorted now rs
    → total rs ≤ℤ max_int64
    → drop_expired cutoff (total rs) rs
      ≡ record { requests = kept cutoff rs; used = total (kept cutoff rs) }
unfolding drop_expired
drop_expired_exact cutoff now [] s h = refl
drop_expired_exact cutoff now (e ∷ rest) s h = elim (Bool-cases (after e.at cutoff)) [
  | inl active ↦ rw active
  | inr expired ↦
      let left : sub64 (e.cost +ℤ total rest) e.cost ≡ total rest =
        sub64_exact (e.cost +ℤ total rest) e.cost
          (omega (int_laws, total_nonneg now rest s.3), omega int_laws)
        ∙ eq_of_parts _ _ (omega int_laws) in
      rw (expired, left) (drop_expired_exact cutoff now rest s.3 (omega int_laws))
]

module _ (p : Policy) where
  -- A window that ends at or after `now` has nothing of what has expired at `now`.
  pub total_in-kept :
      (now last : Time) (rs : List RequestEntry)
      → now ≤ℤ last
      → total_in (rolling p last) (kept (now -ℤ p.window) rs) ≡ total_in (rolling p last) rs
  total_in-kept now last [] h = refl
  total_in-kept now last (e ∷ rest) h = elim (Bool-cases (after e.at (now -ℤ p.window))) [
    | inl active ↦ rw active
    | inr expired ↦
        let outside : rolling p last e.at ≡ false =
          ground (arith, -ℤ_parts now p.window, -ℤ_parts last p.window) in
        rw (expired, outside, zero-+ℤ) (total_in-kept now last rest h)
  ]

  -- No window has more than the whole list.
  pub total_in-le_total :
      (now : Time) (inside : Time → Bool) (rs : List RequestEntry)
      → Sorted now rs
      → total_in inside rs ≤ℤ total rs
  total_in-le_total now inside [] s = omega arith
  total_in-le_total now inside (e ∷ rest) s = elim (Bool-cases (inside e.at)) [
    | inl here ↦ rw here (omega (int_laws, total_in-le_total now inside rest s.3))
    | inr out ↦ rw out (omega (int_laws, total_in-le_total now inside rest s.3))
  ]

  total_in_all :
      (lo now : Time) (rs : List RequestEntry)
      → Between lo now rs
      → now -ℤ p.window <ℤ lo
      → total_in (rolling p now) rs ≡ total rs
  total_in_all lo now [] b h = refl
  total_in_all lo now (e ∷ rest) b h =
      let here : rolling p now e.at ≡ true = ground arith in
      rw here (ap (λ x. e.cost +ℤ x) (total_in_all lo now rest b.3 h))

  -- Of a sorted list what is kept at `now` is what the window that ends at `now` has.
  pub total-kept :
      (now : Time) (rs : List RequestEntry)
      → Sorted now rs
      → total (kept (now -ℤ p.window) rs) ≡ total_in (rolling p now) rs
  total-kept now [] s = refl
  total-kept now (e ∷ rest) s = elim (Bool-cases (after e.at (now -ℤ p.window))) [
    | inl active ↦
        rw (active, leb_ℤ-true e.at now s.1)
          (ap (λ x. e.cost +ℤ x) (sym (total_in_all e.at now rest s.2 (ground arith))))
    | inr expired ↦ rw (expired, zero-+ℤ) (total-kept now rest s.3)
  ]

kept_all :
    (cutoff lo now : Time) (rs : List RequestEntry)
    → Between lo now rs
    → cutoff <ℤ lo
    → kept cutoff rs ≡ rs
kept_all cutoff lo now [] b h = refl
kept_all cutoff lo now (e ∷ rest) b h =
    let active : after e.at cutoff ≡ true = ground arith in rw active

-- Enough has expired exactly from the instant on that the loop of `nextAvailability` finds.
pub release_from_iff :
    (p : Policy) (released required : ℤ) (now later : Time) (rs : List RequestEntry)
    → Sorted now rs
    → pos 0 ≤ℤ released
    → released <ℤ required
    → required ≤ℤ released +ℤ total rs
    → released +ℤ total rs ≤ℤ max_int64
    → (release_from released required p now rs ≤ℤ later)
      ↔ (required +ℤ total (kept (later -ℤ p.window) rs) ≤ℤ released +ℤ total rs)
unfolding release_from
release_from_iff p released required now later [] s nonneg lt enough small = absurd (omega int_laws)
release_from_iff p released required now later (e ∷ rest) s nonneg lt enough small =
    let sum : add64 released e.cost ≡ released +ℤ e.cost =
      add64_exact released e.cost (omega int_laws, omega (int_laws, total_nonneg now rest s.3)) in
    let further : released +ℤ e.cost <ℤ required
        → (release_from (released +ℤ e.cost) required p now rest ≤ℤ later) ↔ (
            required +ℤ total (kept (later -ℤ p.window) rest) ≤ℤ released +ℤ e.cost +ℤ total rest) =
      λ short.
        release_from_iff p (released +ℤ e.cost) required now later rest s.3 (omega int_laws) short
          (omega int_laws) (omega int_laws) in
    elim (Bool-cases (after e.at (later -ℤ p.window))) [
      | inl active ↦ elim (≤ℤ_or_< required (released +ℤ e.cost)) [
        | inl enough_here ↦
            rw (active, sum, leb_ℤ-true required (released +ℤ e.cost) enough_here)
              (
                λ h. absurd (ground (arith, +ℤ_parts e.at p.window, -ℤ_parts later p.window)),
                λ h. absurd (omega int_laws),
              )
        | inr short ↦
            let whole = kept_all (later -ℤ p.window) e.at now rest s.2 (ground arith) in
            rw (active, sum, leb_ℤ-false required (released +ℤ e.cost) short)
              (
                λ h. absurd (
                    omega (
                      int_laws,
                      subst (λ rs. required +ℤ total rs ≤ℤ released +ℤ e.cost +ℤ total rest) whole
                          ((further short).0 h),
                    )),
                λ h. absurd (omega int_laws),
              )
      ]
      | inr expired ↦ elim (≤ℤ_or_< required (released +ℤ e.cost)) [
        | inl enough_here ↦
            rw (expired, sum, leb_ℤ-true required (released +ℤ e.cost) enough_here)
              (
                λ h. omega (int_laws, total-kept-le (later -ℤ p.window) now rest s.3),
                λ h. ground (arith, +ℤ_parts e.at p.window, -ℤ_parts later p.window),
              )
        | inr short ↦
            rw (expired, sum, leb_ℤ-false required (released +ℤ e.cost) short)
              (λ h. omega (int_laws, (further short).0 h), λ h. (further short).1 (omega int_laws))
      ]
    ]
