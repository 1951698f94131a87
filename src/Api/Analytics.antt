-- ===== src/Api/Analytics.antt =====
-- cmd/api/analytics.go: reports on the approvals of a period. The queries run in PostgreSQL; they, the
-- query string of the request and the functions of strconv, strings and time are parameters.
pub mod Shape
pub mod Answers
mod Tests
use rate_limiter_as_a_servic.Clock.{Time, millisecond, unix_milli}
use rate_limiter_as_a_servic.Limiter.{Result, Error, ok, err, plain}
use rate_limiter_as_a_servic.Base.{
  ℤ, pos, String, Option, List, none, some, if◌then◌else◌, eqb_ℤ, not, ◌&&◌, ◌*ℤ◌, map,
}
use rate_limiter_as_a_servic.Events.Decode.{int32}
use rate_limiter_as_a_servic.Api.Reports.{
  ApprovalPolicySummary, ApprovalSummaryResponse, DailyApprovalTrend, ApprovalTrendsResponse,
}
use rate_limiter_as_a_servic.Api.Http.{
  ResponseWriter, write_json, bad_request_error, analytics_unavailable_error, summary_body,
  trends_body,
}

pub record AnalyticsFilter : Type 0 where
  pub days : ℤ
  pub client_id : String
  pub resource : String

-- The rows of the queries.
pub record ApprovalSummaryRow : Type 0 where
  pub total_approvals : ℤ
  pub total_cost : ℤ
  pub first_approval_at_ms : ℤ
  pub latest_approval_at_ms : ℤ

pub record PolicyRow : Type 0 where
  pub client_id : String
  pub resource : String
  pub total_approvals : ℤ
  pub total_cost : ℤ

pub record TrendRow : Type 0 where
  pub day : Time
  pub client_id : String
  pub resource : String
  pub total_approvals : ℤ
  pub total_cost : ℤ

-- What the handlers call. `format_date` is `Format(time.DateOnly)`.
pub record Services : Type 0 where
  pub atoi : String → Result ℤ
  pub trim_space : String → String
  pub format_date : Time → String
  pub get_approval_summary : AnalyticsFilter → Result ApprovalSummaryRow
  pub list_approval_summary_by_policy : AnalyticsFilter → Result (List PolicyRow)
  pub list_daily_approval_trends : AnalyticsFilter → Result (List TrendRow)

abbrev pub invalid_analytics_period : Error
invalid_analytics_period = plain "days must be one of 10, 15, or 30"

-- `readAnalyticsFilter`, from the parsed number on. `query` is `r.URL.Query().Get`.
abbrev pub filter_of : Services → (String → String) → Result ℤ → Result AnalyticsFilter
filter_of s query (err e) = err invalid_analytics_period
filter_of s query (ok days) =
    if not (eqb_ℤ days (pos 10)) && not (eqb_ℤ days (pos 15)) && not (eqb_ℤ days (pos 30))
    then err invalid_analytics_period
    else ok (record {
      days = int32 days;
      client_id = s.trim_space (query "client_id");
      resource = s.trim_space (query "resource");
    })

unfoldable pub read_analytics_filter : Services → (String → String) → Result AnalyticsFilter
read_analytics_filter s query = filter_of s query (s.atoi (query "days"))

unfoldable pub time_from_milliseconds : ℤ → Option Time
time_from_milliseconds milliseconds =
    if eqb_ℤ milliseconds (pos 0) then none else some (unix_milli milliseconds)

abbrev pub policy_summary : PolicyRow → ApprovalPolicySummary
policy_summary row = record {
  client_id = row.client_id;
  resource = row.resource;
  total_approvals = row.total_approvals;
  total_cost = row.total_cost;
}

abbrev pub summary_response :
    AnalyticsFilter → ApprovalSummaryRow → List PolicyRow → ApprovalSummaryResponse
summary_response filter summary policies = record {
  period_days = filter.days;
  client_id = filter.client_id;
  resource = filter.resource;
  total_approvals = summary.total_approvals;
  total_cost = summary.total_cost;
  first_approval_at = time_from_milliseconds summary.first_approval_at_ms;
  latest_approval_at = time_from_milliseconds summary.latest_approval_at_ms;
  policies = map policy_summary policies;
}

abbrev pub trend : Services → TrendRow → DailyApprovalTrend
trend s row = record {
  day = s.format_date row.day;
  client_id = row.client_id;
  resource = row.resource;
  total_approvals = row.total_approvals;
  total_cost = row.total_cost;
}

abbrev pub trends_response : Services → AnalyticsFilter → List TrendRow → ApprovalTrendsResponse
trends_response s filter rows = record {
  period_days = filter.days;
  client_id = filter.client_id;
  resource = filter.resource;
  trends = map (trend s) rows;
}

-- The handlers, from the filter on. An error of the last write is only logged.
abbrev pub with_policies :
    AnalyticsFilter → ApprovalSummaryRow → ResponseWriter → Result (List PolicyRow) → ResponseWriter
with_policies filter summary w (err e) = analytics_unavailable_error w e
with_policies filter summary w (ok policies) =
    (write_json w 200 (summary_body (summary_response filter summary policies))).1

abbrev pub with_summary :
    Services → AnalyticsFilter → ResponseWriter → Result ApprovalSummaryRow → ResponseWriter
with_summary s filter w (err e) = analytics_unavailable_error w e
with_summary s filter w (ok summary) =
    with_policies filter summary w (s.list_approval_summary_by_policy filter)

abbrev pub summary_for : Services → ResponseWriter → Result AnalyticsFilter → ResponseWriter
summary_for s w (err e) = bad_request_error w e
summary_for s w (ok filter) = with_summary s filter w (s.get_approval_summary filter)

unfoldable pub approval_summary_handler :
    Services → ResponseWriter → (String → String) → ResponseWriter
approval_summary_handler s w query = summary_for s w (read_analytics_filter s query)

abbrev pub with_trends :
    Services → AnalyticsFilter → ResponseWriter → Result (List TrendRow) → ResponseWriter
with_trends s filter w (err e) = analytics_unavailable_error w e
with_trends s filter w (ok rows) =
    (write_json w 200 (trends_body (trends_response s filter rows))).1

abbrev pub trends_for : Services → ResponseWriter → Result AnalyticsFilter → ResponseWriter
trends_for s w (err e) = bad_request_error w e
trends_for s w (ok filter) = with_trends s filter w (s.list_daily_approval_trends filter)

unfoldable pub approval_trends_handler :
    Services → ResponseWriter → (String → String) → ResponseWriter
approval_trends_handler s w query = trends_for s w (read_analytics_filter s query)
