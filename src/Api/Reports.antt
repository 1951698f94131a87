-- ===== src/Api/Reports.antt =====
-- The answers of cmd/api/analytics.go.
use rate_limiter_as_a_servic.Clock.{Time}
use rate_limiter_as_a_servic.Base.{ℤ, String, Option, List}

pub record ApprovalPolicySummary : Type 0 where
  pub client_id : String
  pub resource : String
  pub total_approvals : ℤ
  pub total_cost : ℤ

pub record ApprovalSummaryResponse : Type 0 where
  pub period_days : ℤ
  pub client_id : String
  pub resource : String
  pub total_approvals : ℤ
  pub total_cost : ℤ
  pub first_approval_at : Option Time
  pub latest_approval_at : Option Time
  pub policies : List ApprovalPolicySummary

pub record DailyApprovalTrend : Type 0 where
  pub day : String
  pub client_id : String
  pub resource : String
  pub total_approvals : ℤ
  pub total_cost : ℤ

pub record ApprovalTrendsResponse : Type 0 where
  pub period_days : ℤ
  pub client_id : String
  pub resource : String
  pub trends : List DailyApprovalTrend
