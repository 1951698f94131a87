-- ===== src/Api/Analytics/Answers.antt =====
-- What a client of the analytics endpoints gets.
use rate_limiter_as_a_servic.Limiter.{Result, Error, ok, err}
use rate_limiter_as_a_servic.Base.{
  ℤ, ℕ, pos, String, Option, List, none, some, if◌then◌else◌, eqb_ℤ, ◌||◌, ◌≡◌, ◌⊎◌, ◌∷◌, [],
}
use rate_limiter_as_a_servic.Api.Http.{ResponseWriter, Body, error_body, summary_body, trends_body}
use rate_limiter_as_a_servic.Api.Reports.{ApprovalSummaryResponse, ApprovalTrendsResponse}
use rate_limiter_as_a_servic.Api.Analytics.Shape.{IsSummary, IsTrends}
use rate_limiter_as_a_servic.Api.Analytics.{
  AnalyticsFilter, ApprovalSummaryRow, PolicyRow, TrendRow, Services,
}

-- The period that a request may ask for.
abbrev pub period_of : Result ℤ → Option ℤ
period_of (err e) = none
period_of (ok n) = if eqb_ℤ n (pos 10) || eqb_ℤ n (pos 15) || eqb_ℤ n (pos 30) then some n else none

-- One status line and one JSON object.
abbrev pub Answered : ResponseWriter → ℕ → Option ℤ → Body → Type 0
Answered w status retry_after body =
    (w.sent
      ≡ some (status, record { content_type = some "application/json"; retry_after = retry_after }))
    × (w.body ≡ body ∷ [])

abbrev pub asked : Services → (String → String) → ℤ → AnalyticsFilter
asked s query n = record {
  days = n;
  client_id = s.trim_space (query "client_id");
  resource = s.trim_space (query "resource");
}

abbrev pub IsRefused : Services → (String → String) → ResponseWriter → Type 0
IsRefused s query w =
    (period_of (s.atoi (query "days")) ≡ none)
    × Answered w 400 none (error_body "days must be one of 10, 15, or 30")

abbrev pub IsUnavailable : ResponseWriter → Type 0
IsUnavailable w = Answered w 503 (some (pos 1)) (error_body "analytics temporarily unavailable")

abbrev pub IsSummaryAnswer : Services → (String → String) → ResponseWriter → Type 0
IsSummaryAnswer s query w =
    IsRefused s query w
    ⊎ ((n : ℤ) × (period_of (s.atoi (query "days")) ≡ some n)
        × let filter = asked s query n in
          ((e : Error) × (s.get_approval_summary filter ≡ err e) × IsUnavailable w)
          ⊎ (((e : Error) × (s.list_approval_summary_by_policy filter ≡ err e) × IsUnavailable w)
              ⊎ ((summary : ApprovalSummaryRow) × (rows : List PolicyRow) × (s.get_approval_summary
                      filter
                    ≡ ok summary)
                  × (s.list_approval_summary_by_policy filter ≡ ok rows)
                  × (report : ApprovalSummaryResponse) × IsSummary filter summary rows report
                  × Answered w 200 none (summary_body report))))

abbrev pub IsTrendsAnswer : Services → (String → String) → ResponseWriter → Type 0
IsTrendsAnswer s query w =
    IsRefused s query w
    ⊎ ((n : ℤ) × (period_of (s.atoi (query "days")) ≡ some n)
        × let filter = asked s query n in
          ((e : Error) × (s.list_daily_approval_trends filter ≡ err e) × IsUnavailable w)
          ⊎ ((rows : List TrendRow) × (s.list_daily_approval_trends filter ≡ ok rows)
              × (report : ApprovalTrendsResponse) × IsTrends s filter rows report
              × Answered w 200 none (trends_body report)))

module _ (s : Services) (filter : AnalyticsFilter) where
  abbrev PoliciesAnswer : ApprovalSummaryRow → Result (List PolicyRow) → ResponseWriter → Type 0
  PoliciesAnswer summary result w =
      ((e : Error) × (result ≡ err e) × IsUnavailable w)
      ⊎ ((rows : List PolicyRow) × (result ≡ ok rows)
          × (report : ApprovalSummaryResponse) × IsSummary filter summary rows report
          × Answered w 200 none (summary_body report))

  abbrev SummaryAnswer : Result ApprovalSummaryRow → ResponseWriter → Type 0
  SummaryAnswer result w =
      ((e : Error) × (result ≡ err e) × IsUnavailable w)
      ⊎ (((e : Error) × (s.list_approval_summary_by_policy filter ≡ err e) × IsUnavailable w)
          ⊎ ((summary : ApprovalSummaryRow) × (rows : List PolicyRow) × (result ≡ ok summary)
              × (s.list_approval_summary_by_policy filter ≡ ok rows)
              × (report : ApprovalSummaryResponse) × IsSummary filter summary rows report
              × Answered w 200 none (summary_body report)))

  abbrev TrendsAnswer : Result (List TrendRow) → ResponseWriter → Type 0
  TrendsAnswer result w =
      ((e : Error) × (result ≡ err e) × IsUnavailable w)
      ⊎ ((rows : List TrendRow) × (result ≡ ok rows)
          × (report : ApprovalTrendsResponse) × IsTrends s filter rows report
          × Answered w 200 none (trends_body report))
