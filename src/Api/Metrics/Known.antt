-- ===== src/Api/Metrics/Known.antt =====
-- Which series there are.
use rate_limiter_as_a_servic.Clock.{Duration}
use rate_limiter_as_a_servic.Limiter.{Key, Policy}
use rate_limiter_as_a_servic.Api.Metrics.{
  Outcome, with_resources, Bool, Dict, metric_outcomes, has_resource, false, Series, some, ℕ, ◌∷◌,
  true, lookup, nat_eq, allowed, outcome_code, with_outcomes, quota_rejected, str_eq, arith,
  invalid_request, unknown_policy, insert, backlog_full, dependency_unavailable, internal_error,
  known_from, ApiMetrics, observe, new_api_metrics, Key, Policy, Duration, resource_label,
  unknown_metric_resource, suc, count, sym, series_beq_iff,
}
use rate_limiter_as_a_servic.Api.Metrics.{series_eq, series_beq, Series, Outcome, metric_outcomes}
use rate_limiter_as_a_servic.Base.{
  Option, List, String, Bool, Dict, false, ◌≡◌, ℕ, true, lookup, nat_eq, none, ◌||◌, arith, [], ◌∷◌,
  ◌&&◌, insert, lookup-insert, refl, suc, ◌∙◌, subst, Bool-cases, sym, inl, inr,
}

abbrev pub is_some {ℓ} : {A : Type ℓ} → Option A → Bool
is_some none = false
is_some (some _) = true

-- The series are those of the known resources, with every outcome.
abbrev pub IsKnown : List String → Dict Series ℕ → Type 0
IsKnown known decisions =
    (s : Series) → is_some (lookup s decisions) ≡ has_resource s.resource known

is_listed : Outcome → List Outcome → Bool
is_listed o [] = false
is_listed o (x ∷ xs) = nat_eq (outcome_code o) (outcome_code x) || is_listed o xs

all_listed : (o : Outcome) → is_listed o metric_outcomes ≡ true
unfolding is_listed
all_listed allowed = refl
all_listed quota_rejected = refl
all_listed invalid_request = refl
all_listed unknown_policy = refl
all_listed backlog_full = refl
all_listed dependency_unavailable = refl
all_listed internal_error = refl

lookup-with_outcomes :
    (resource : String) (os : List Outcome) (decisions : Dict Series ℕ) (s : Series)
    → is_some (lookup s (with_outcomes resource os decisions))
      ≡ ((str_eq s.resource resource && is_listed s.outcome os) || is_some (lookup s decisions))
unfolding is_listed series_beq
lookup-with_outcomes resource [] decisions s = ground arith
lookup-with_outcomes resource (o ∷ os) decisions s =
    let added : Series = record { outcome = o; resource = resource } in
    ground (
      arith,
      lookup-with_outcomes resource os (insert added 0 decisions) s,
      lookup-insert added s 0 decisions,
    )

lookup-with_resources :
    (rs : List String) (decisions : Dict Series ℕ) (s : Series)
    → is_some (lookup s (with_resources rs decisions))
      ≡ (has_resource s.resource rs || is_some (lookup s decisions))
unfolding with_resources has_resource
lookup-with_resources [] decisions s = ground arith
lookup-with_resources (r ∷ rs) decisions s = ground (
  arith,
  lookup-with_resources rs (with_outcomes r metric_outcomes decisions) s,
  lookup-with_outcomes r metric_outcomes decisions s,
  all_listed s.outcome,
)

lookup-known_from :
    (policies : Dict Key Policy) → has_resource unknown_metric_resource (known_from policies) ≡ true
unfolding has_resource known_from
lookup-known_from [] = refl
lookup-known_from ((key, policy) ∷ policies) = ground (arith, lookup-known_from policies)

-- The metrics after some requests, newest first: what each has recorded.
pub observed : ApiMetrics → List (String × Outcome × Duration) → ApiMetrics
observed m [] = m
observed m ((resource, outcome, elapsed) ∷ older) =
    observe (observed m older) resource outcome elapsed

has_resource-resource_label :
    (m : ApiMetrics) (resource : String)
    → has_resource unknown_metric_resource m.known_resources ≡ true
    → has_resource (resource_label m resource) m.known_resources ≡ true
unfolding resource_label
has_resource-resource_label m resource unknown = ground arith

or_false : (b : Bool) → (b || false) ≡ b
or_false b = ground arith

observe-known_resources :
    (m : ApiMetrics) (resource : String) (outcome : Outcome) (elapsed : Duration)
    → (observe m resource outcome elapsed).known_resources ≡ m.known_resources
unfolding observe
observe-known_resources m resource outcome elapsed = refl

observe-IsKnown :
    (m : ApiMetrics) (resource : String) (outcome : Outcome) (elapsed : Duration)
    → has_resource unknown_metric_resource m.known_resources ≡ true
    → IsKnown m.known_resources m.decisions
    → IsKnown m.known_resources (observe m resource outcome elapsed).decisions
unfolding observe
observe-IsKnown m resource outcome elapsed unknown known s =
    let t : Series = record { outcome = outcome; resource = resource_label m resource } in
    let inserted = lookup-insert t s (suc (count m t)) m.decisions in
    elim (Bool-cases (series_beq s t)) [
      | inl same ↦
          let label : has_resource s.resource m.known_resources ≡ true =
            subst (λ (x : Series). has_resource x.resource m.known_resources ≡ true)
              (sym ((series_beq_iff s t).0 same))
              (has_resource-resource_label m resource unknown) in
          rw (inserted, same, label)
      | inr other ↦ rw (inserted, other) (known s)
    ]

IsKnown-start :
    (policies : Dict Key Policy)
    → IsKnown (known_from policies) (new_api_metrics policies).decisions
unfolding new_api_metrics lookup
IsKnown-start policies s =
    lookup-with_resources (known_from policies) [] s
    ∙ or_false (has_resource s.resource (known_from policies))

observed-IsKnown :
    (policies : Dict Key Policy) (os : List (String × Outcome × Duration))
    → ((observed (new_api_metrics policies) os).known_resources ≡ known_from policies)
      × IsKnown (known_from policies) (observed (new_api_metrics policies) os).decisions
unfolding observed new_api_metrics
observed-IsKnown policies [] = (refl, IsKnown-start policies)
observed-IsKnown policies ((resource, outcome, elapsed) ∷ older) =
    let m = observed (new_api_metrics policies) older in
    let before = observed-IsKnown policies older in
    let same : m.known_resources ≡ known_from policies = before.0 in
    (
      observe-known_resources m resource outcome elapsed ∙ same,
      subst (λ (k : List String). IsKnown k (observe m resource outcome elapsed).decisions) same
          (observe-IsKnown m resource outcome elapsed
            (subst (λ k. has_resource unknown_metric_resource k ≡ true) (sym same)
              (lookup-known_from policies))
            (subst (λ k. IsKnown k m.decisions) (sym same) before.1)),
    )

-- However clients name their resources, the counters have exactly the series of the configured
-- resources and of `unknown`, each with all seven outcomes: a request never makes a new series.
pub series_after_requests :
    (policies : Dict Key Policy) (os : List (String × Outcome × Duration)) (s : Series)
    → is_some (lookup s (observed (new_api_metrics policies) os).decisions)
      ≡ has_resource s.resource (known_from policies)
series_after_requests policies os s = (observed-IsKnown policies os).1 s
