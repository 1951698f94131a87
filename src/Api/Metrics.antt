-- ===== src/Api/Metrics.antt =====
-- cmd/api/metrics.go: the counters of the decisions. Of Prometheus it has the documented behaviour
-- of a vector: `WithLabelValues` makes the series of its labels, and `Inc` adds one to it.
pub mod Known
use rate_limiter_as_a_servic.Limiter.{Key, Policy}
use rate_limiter_as_a_servic.Clock.{Duration}
use rate_limiter_as_a_servic.Base.{
  ℤ, pos, String, List, ℕ, ◌≡◌, Bool, Comparable, Dict, Option, ◌∷◌, nat_eq, sym, true, false,
  if◌then◌else◌, some, lookup, refl, [], ◌&&◌, ◌∙◌, ◌↔◌, ◌||◌, insert, none, ap, arith, suc,
}
use text.Mathlib.Text.{◌==◌ as str_eq}
use text.Mathlib.TextEquality.{eq_iff}

-- The values of `metricOutcomes`.
pub data Outcome : Type 0 where
  allowed quota_rejected invalid_request unknown_policy : Outcome
  backlog_full dependency_unavailable internal_error : Outcome

abbrev pub unknown_metric_resource : String
unknown_metric_resource = "unknown"

abbrev pub metric_outcomes : List Outcome
metric_outcomes =
    allowed ∷ quota_rejected ∷ invalid_request ∷ unknown_policy ∷ backlog_full
    ∷ dependency_unavailable ∷ internal_error ∷ []

-- The labels of a series.
pub record Series : Type 0 where
  pub outcome : Outcome
  pub resource : String

abbrev pub outcome_code : Outcome → ℕ
outcome_code allowed = 0
outcome_code quota_rejected = 1
outcome_code invalid_request = 2
outcome_code unknown_policy = 3
outcome_code backlog_full = 4
outcome_code dependency_unavailable = 5
outcome_code internal_error = 6

outcome_of_code : ℕ → Outcome
outcome_of_code n =
    if nat_eq n 0
    then allowed
    else if nat_eq n 1
    then quota_rejected
    else if nat_eq n 2
    then invalid_request
    else if nat_eq n 3
    then unknown_policy
    else if nat_eq n 4
    then backlog_full
    else if nat_eq n 5
    then dependency_unavailable
    else internal_error

outcome_of_code-outcome_code : (o : Outcome) → outcome_of_code (outcome_code o) ≡ o
unfolding outcome_of_code
outcome_of_code-outcome_code allowed = refl
outcome_of_code-outcome_code quota_rejected = refl
outcome_of_code-outcome_code invalid_request = refl
outcome_of_code-outcome_code unknown_policy = refl
outcome_of_code-outcome_code backlog_full = refl
outcome_of_code-outcome_code dependency_unavailable = refl
outcome_of_code-outcome_code internal_error = refl

unfoldable pub series_beq : Series → Series → Bool
series_beq a b =
    nat_eq (outcome_code a.outcome) (outcome_code b.outcome) && str_eq a.resource b.resource

outcome_code-injective : (a b : Outcome) → outcome_code a ≡ outcome_code b → a ≡ b
outcome_code-injective a b e =
    sym (outcome_of_code-outcome_code a) ∙ ap outcome_of_code e ∙ outcome_of_code-outcome_code b

pub series_beq_iff : (a b : Series) → (series_beq a b ≡ true) ↔ (a ≡ b)
unfolding series_beq
series_beq_iff a b =
    ground (arith, eq_iff a.resource b.resource, outcome_code-injective a.outcome b.outcome)

instance abbrev pub series_eq : Comparable Series
series_eq = record { same = series_beq; same_iff = series_beq_iff }

-- The counter of decisions, the requests in flight, and the resources with series of their own. A
-- histogram's series has as many samples as its counter: `samples` lists them, newest first.
pub record ApiMetrics : Type 0 where
  pub decisions : Dict Series ℕ
  pub samples : List (Series × Duration)
  pub in_flight : ℤ
  pub known_resources : List String

pub has_resource : String → List String → Bool
has_resource r [] = false
has_resource r (x ∷ xs) = str_eq r x || has_resource r xs

unfoldable pub resource_label : ApiMetrics → String → String
unfolding has_resource
resource_label m resource =
    if has_resource resource m.known_resources then resource else unknown_metric_resource

abbrev pub count_or_zero : Option ℕ → ℕ
count_or_zero none = 0
count_or_zero (some n) = n

-- The value of a series.
abbrev pub count : ApiMetrics → Series → ℕ
count m s = count_or_zero (lookup s m.decisions)

unfoldable pub observe : ApiMetrics → String → Outcome → Duration → ApiMetrics
observe m resource outcome elapsed =
    let s : Series = record { outcome = outcome; resource = resource_label m resource } in
    record m {
      decisions = insert s (suc (count m s)) m.decisions;
      samples = (s, elapsed) ∷ m.samples;
    }

-- The keys of `knownResources`: each policy's resource, and `unknown`.
unfoldable pub known_from : Dict Key Policy → List String
known_from [] = unknown_metric_resource ∷ []
known_from ((key, policy) ∷ policies) = key.resource ∷ known_from policies

-- The loops that make the series of all outcomes and resources.
abbrev pub with_outcomes : String → List Outcome → Dict Series ℕ → Dict Series ℕ
with_outcomes resource [] decisions = decisions
with_outcomes resource (o ∷ os) decisions =
    with_outcomes resource os (insert (record { outcome = o; resource = resource }) 0 decisions)

unfoldable pub with_resources : List String → Dict Series ℕ → Dict Series ℕ
with_resources [] decisions = decisions
with_resources (r ∷ rs) decisions = with_resources rs (with_outcomes r metric_outcomes decisions)

unfoldable pub new_api_metrics : Dict Key Policy → ApiMetrics
new_api_metrics policies = record {
  decisions = with_resources (known_from policies) [];
  samples = [];
  in_flight = pos 0;
  known_resources = known_from policies;
}
