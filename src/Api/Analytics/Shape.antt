-- ===== src/Api/Analytics/Shape.antt =====
-- What a report says, told from the filter that is asked for and the rows that PostgreSQL answers.
use rate_limiter_as_a_servic.Clock.{Time, unix_milli}
use rate_limiter_as_a_servic.Base.{
  ℤ, pos, Option, List, none, some, eqb_ℤ, ◌≡◌, ◌⊎◌, inl, inr, ◌∷◌, [], refl, Bool-cases, true,
  false, map,
}
use rate_limiter_as_a_servic.Api.Reports.{
  ApprovalPolicySummary, ApprovalSummaryResponse, DailyApprovalTrend, ApprovalTrendsResponse,
}
use rate_limiter_as_a_servic.Api.Analytics.{
  AnalyticsFilter, ApprovalSummaryRow, PolicyRow, TrendRow, Services, summary_response,
  trends_response, policy_summary, trend, time_from_milliseconds,
}

-- As many entries as rows, each of them that of its row.
abbrev pub Each {ℓ κ} : {A : Type ℓ} {B : Type κ} → (A → B → Type 0) → List A → List B → Type 0
Each R [] [] = Unit
Each R (a ∷ xs) (b ∷ ys) = R a b × Each R xs ys
Each R _ _ = ⊥

Each-map {ℓ κ} :
    {A : Type ℓ} {B : Type κ} (R : A → B → Type 0) (f : A → B) (h : (a : A) → R a (f a))
    (xs : List A)
    → Each R xs (map f xs)
Each-map R f h [] = tt
Each-map R f h (a ∷ xs) = (h a, Each-map R f h xs)

-- The number of milliseconds is 0 where there is no approval.
abbrev pub IsInstant : ℤ → Option Time → Type 0
IsInstant ms t =
    ((eqb_ℤ ms (pos 0) ≡ true) × (t ≡ none))
    ⊎ ((eqb_ℤ ms (pos 0) ≡ false) × (t ≡ some (unix_milli ms)))

time_from_milliseconds-IsInstant : (ms : ℤ) → IsInstant ms (time_from_milliseconds ms)
unfolding time_from_milliseconds
time_from_milliseconds-IsInstant ms = elim (Bool-cases (eqb_ℤ ms (pos 0))) [
  | inl zero_ms ↦ rw zero_ms (inl (refl, refl))
  | inr other ↦ rw other (inr (refl, refl))
]

pub record IsPolicySummary (row : PolicyRow) (entry : ApprovalPolicySummary) : Type 0 where
  pub client : entry.client_id ≡ row.client_id
  pub resource : entry.resource ≡ row.resource
  pub approvals : entry.total_approvals ≡ row.total_approvals
  pub cost : entry.total_cost ≡ row.total_cost

pub record IsDailyTrend (s : Services) (row : TrendRow) (entry : DailyApprovalTrend) : Type 0 where
  pub day : entry.day ≡ s.format_date row.day
  pub client : entry.client_id ≡ row.client_id
  pub resource : entry.resource ≡ row.resource
  pub approvals : entry.total_approvals ≡ row.total_approvals
  pub cost : entry.total_cost ≡ row.total_cost

-- The report on a period, a client and a resource: the totals, the first and the latest approval, and
-- the policies in the order of the rows.
pub record IsSummary (filter : AnalyticsFilter) (total : ApprovalSummaryRow) (rows : List PolicyRow)
    (report : ApprovalSummaryResponse) : Type 0 where
  pub period : report.period_days ≡ filter.days
  pub client : report.client_id ≡ filter.client_id
  pub resource : report.resource ≡ filter.resource
  pub approvals : report.total_approvals ≡ total.total_approvals
  pub cost : report.total_cost ≡ total.total_cost
  pub first : IsInstant total.first_approval_at_ms report.first_approval_at
  pub latest : IsInstant total.latest_approval_at_ms report.latest_approval_at
  pub policies : Each IsPolicySummary rows report.policies

pub record IsTrends (s : Services) (filter : AnalyticsFilter) (rows : List TrendRow)
    (report : ApprovalTrendsResponse) : Type 0 where
  pub period : report.period_days ≡ filter.days
  pub client : report.client_id ≡ filter.client_id
  pub resource : report.resource ≡ filter.resource
  pub days : Each (IsDailyTrend s) rows report.trends

policy_summary-IsPolicySummary : (row : PolicyRow) → IsPolicySummary row (policy_summary row)
policy_summary-IsPolicySummary row = record {
  client = refl;
  resource = refl;
  approvals = refl;
  cost = refl;
}

trend-IsDailyTrend : (s : Services) (row : TrendRow) → IsDailyTrend s row (trend s row)
trend-IsDailyTrend s row = record {
  day = refl;
  client = refl;
  resource = refl;
  approvals = refl;
  cost = refl;
}

pub summary_response-IsSummary :
    (filter : AnalyticsFilter) (total : ApprovalSummaryRow) (rows : List PolicyRow)
    → IsSummary filter total rows (summary_response filter total rows)
summary_response-IsSummary filter total rows = record {
  period = refl;
  client = refl;
  resource = refl;
  approvals = refl;
  cost = refl;
  first = time_from_milliseconds-IsInstant total.first_approval_at_ms;
  latest = time_from_milliseconds-IsInstant total.latest_approval_at_ms;
  policies = Each-map IsPolicySummary policy_summary policy_summary-IsPolicySummary rows;
}

pub trends_response-IsTrends :
    (s : Services) (filter : AnalyticsFilter) (rows : List TrendRow)
    → IsTrends s filter rows (trends_response s filter rows)
trends_response-IsTrends s filter rows = record {
  period = refl;
  client = refl;
  resource = refl;
  days = Each-map (IsDailyTrend s) (trend s) (trend-IsDailyTrend s) rows;
}
