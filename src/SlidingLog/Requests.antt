-- ===== src/SlidingLog/Requests.antt =====
-- The list of approved requests: what it adds up to, and what the two loops over it compute.
use rate_limiter_as_a_servic.SlidingLog.{RequestEntry}
use rate_limiter_as_a_servic.Clock.{Time, after}
use rate_limiter_as_a_servic.Base.{
  ℤ, pos, List, Bool, ◌∷◌, ◌≤ℤ◌, ◌<ℤ◌, ◌++◌, arith, Bool-cases, [], if◌then◌else◌, ◌+ℤ◌, int_laws,
  ◌≡◌, inl, eq_of_parts, inr, refl,
}

-- The cost of the requests at the instants that `inside` tells.
abbrev pub total_in : (Time → Bool) → List RequestEntry → ℤ
total_in inside [] = pos 0
total_in inside (e ∷ rest) = (if inside e.at then e.cost else pos 0) +ℤ total_in inside rest

abbrev pub total : List RequestEntry → ℤ
total [] = pos 0
total (e ∷ rest) = e.cost +ℤ total rest

-- Every entry stands between two instants and has a positive cost.
abbrev pub Between : Time → Time → List RequestEntry → Type 0
Between lo hi [] = Unit
Between lo hi (e ∷ rest) = (lo ≤ℤ e.at) × (e.at ≤ℤ hi) × (pos 0 <ℤ e.cost) × Between lo hi rest

-- The entries up to `now`, in the order of time.
abbrev pub Sorted : Time → List RequestEntry → Type 0
Sorted now [] = Unit
Sorted now (e ∷ rest) = (pos 0 <ℤ e.cost) × (e.at ≤ℤ now) × Between e.at now rest × Sorted now rest

-- What is left once the entries that are not after `cutoff` are dropped from the front.
abbrev pub kept : Time → List RequestEntry → List RequestEntry
kept cutoff [] = []
kept cutoff (e ∷ rest) = if after e.at cutoff then e ∷ rest else kept cutoff rest

pub Between-mono :
    (lo hi hi' : Time) (rs : List RequestEntry) → hi ≤ℤ hi' → Between lo hi rs → Between lo hi' rs
Between-mono lo hi hi' [] h b = tt
Between-mono lo hi hi' (e ∷ rest) h b = (b.0, omega arith, b.2, Between-mono lo hi hi' rest h b.3)

pub Sorted-mono :
    (now later : Time) (rs : List RequestEntry) → now ≤ℤ later → Sorted now rs → Sorted later rs
Sorted-mono now later [] h s = tt
Sorted-mono now later (e ∷ rest) h s =
    (s.0, omega arith, Between-mono e.at now later rest h s.2, Sorted-mono now later rest h s.3)

pub total_nonneg : (now : Time) (rs : List RequestEntry) → Sorted now rs → pos 0 ≤ℤ total rs
total_nonneg now [] s = omega arith
total_nonneg now (e ∷ rest) s = omega (int_laws, total_nonneg now rest s.3)

pub kept-Sorted :
    (cutoff now : Time) (rs : List RequestEntry) → Sorted now rs → Sorted now (kept cutoff rs)
kept-Sorted cutoff now [] s = tt
kept-Sorted cutoff now (e ∷ rest) s = elim (Bool-cases (after e.at cutoff)) [
  | inl active ↦ rw active s
  | inr expired ↦ rw expired (kept-Sorted cutoff now rest s.3)
]

pub total-kept-le :
    (cutoff now : Time) (rs : List RequestEntry)
    → Sorted now rs
    → total (kept cutoff rs) ≤ℤ total rs
total-kept-le cutoff now [] s = omega arith
total-kept-le cutoff now (e ∷ rest) s = elim (Bool-cases (after e.at cutoff)) [
  | inl active ↦ rw active (omega arith)
  | inr expired ↦ rw expired (omega (int_laws, total-kept-le cutoff now rest s.3))
]

-- A new entry at the end.
pub Between-append :
    (lo now : Time) (cost : ℤ) (rs : List RequestEntry)
    → Between lo now rs
    → lo ≤ℤ now
    → pos 0 <ℤ cost
    → Between lo now (rs ++ record { at = now; cost = cost } ∷ [])
Between-append lo now cost [] b h positive = (h, omega arith, positive, tt)
Between-append lo now cost (e ∷ rest) b h positive =
    (b.0, b.1, b.2, Between-append lo now cost rest b.3 h positive)

pub Sorted-append :
    (now : Time) (cost : ℤ) (rs : List RequestEntry)
    → Sorted now rs
    → pos 0 <ℤ cost
    → Sorted now (rs ++ record { at = now; cost = cost } ∷ [])
Sorted-append now cost [] s positive = (positive, omega arith, tt, tt)
Sorted-append now cost (e ∷ rest) s positive = (
  s.0,
  s.1,
  Between-append e.at now cost rest s.2 s.1 positive,
  Sorted-append now cost rest s.3 positive,
)

pub total_in-append :
    (inside : Time → Bool) (rs : List RequestEntry) (e : RequestEntry)
    → total_in inside (rs ++ e ∷ []) ≡ (if inside e.at then e.cost else pos 0) +ℤ total_in inside rs
total_in-append inside [] e = refl
total_in-append inside (x ∷ rest) e =
    rw (total_in-append inside rest e) (eq_of_parts _ _ (omega int_laws))

pub total-append :
    (rs : List RequestEntry) (e : RequestEntry) → total (rs ++ e ∷ []) ≡ total rs +ℤ e.cost
total-append [] e = eq_of_parts _ _ (omega int_laws)
total-append (x ∷ rest) e = rw (total-append rest e) (eq_of_parts _ _ (omega int_laws))
