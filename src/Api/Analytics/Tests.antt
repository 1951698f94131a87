-- ===== src/Api/Analytics/Tests.antt =====
-- The analytics endpoints at a concrete request.
use rate_limiter_as_a_servic.Clock.{unix_milli}
use rate_limiter_as_a_servic.Limiter.{ok, err, plain}
use text.Mathlib.Text.{◌==◌ as str_eq}
use rate_limiter_as_a_servic.Base.{
  pos, String, if◌then◌else◌, ◌≡◌, refl, ◌∷◌, [], none, some, ◌+ℤ◌, ◌-ℤ◌, ◌*ℤ◌, floor_mod,
}
use rate_limiter_as_a_servic.Api.Http.{new_writer, summary_body, write_json}
use rate_limiter_as_a_servic.Api.Analytics.{
  Services, approval_summary_handler, read_analytics_filter, time_from_milliseconds, unix_milli,
}

-- The trends cannot be read.
abbrev services : Services
services = record {
  atoi = λ text. if str_eq text "15" then ok (pos 15) else err (plain "invalid syntax");
  trim_space = λ text. text;
  format_date = λ day. "2026-01-02";
  get_approval_summary = λ filter. ok (record {
    total_approvals = pos 2;
    total_cost = pos 5;
    first_approval_at_ms = pos 1000;
    latest_approval_at_ms = pos 2000;
  });
  list_approval_summary_by_policy = λ filter. ok (
      record {
        client_id = "client-a";
        resource = "openai";
        total_approvals = pos 2;
        total_cost = pos 5;
      }
      ∷ []);
  list_daily_approval_trends = λ filter. err (plain "connection refused");
}

abbrev query : String → String
query name = if str_eq name "days" then "15" else ""

summary_sent :
    (approval_summary_handler services (new_writer none) query).body
    ≡ summary_body (record {
      period_days = pos 15;
      client_id = "";
      resource = "";
      total_approvals = pos 2;
      total_cost = pos 5;
      first_approval_at = some (unix_milli (pos 1000));
      latest_approval_at = some (unix_milli (pos 2000));
      policies =
          record {
            client_id = "client-a";
            resource = "openai";
            total_approvals = pos 2;
            total_cost = pos 5;
          }
          ∷ [];
    })
      ∷ []
unfolding approval_summary_handler read_analytics_filter time_from_milliseconds write_json floor_mod
    ◌+ℤ◌ ◌-ℤ◌ ◌*ℤ◌
summary_sent = refl
