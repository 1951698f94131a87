-- ===== src/Api/Http.antt =====
-- cmd/api/json.go and cmd/api/errors.go: reading a request body and writing an answer. Of net/http
-- it has the documented behaviour of a ResponseWriter: the first WriteHeader sends the status with
-- the headers set by then, and a later one does nothing. A header or a field that shows a number or
-- a time keeps it as it is: its text is that of strconv or package time.
pub mod Retry
use rate_limiter_as_a_servic.Clock.{Duration, Time, second}
use rate_limiter_as_a_servic.Limiter.{
  Result, Error, err, error_text, wrapped, ok, plain, errors_is, eof,
}
use rate_limiter_as_a_servic.Api.Reports.{ApprovalSummaryResponse, ApprovalTrendsResponse}
use rate_limiter_as_a_servic.Base.{
  ℤ, pos, Bool, Option, ℕ, some, String, List, quot, none, ◌++◌, sub64, ◌∷◌, [], add64,
  if◌then◌else◌,
}
use Prim.Native.String.{◌++◌ as append, String, []}

pub record CheckRateLimitPayload : Type 0 where
  pub client_id : String
  pub resource : String
  pub cost : ℤ

pub record CheckRateLimitResponse : Type 0 where
  pub allowed : Bool
  pub limit : ℤ
  pub remaining : ℤ
  pub reset_at : Time
  pub retry_after_ms : ℤ

-- A JSON object that is written.
pub data Body : Type 0 where
  summary_body : ApprovalSummaryResponse → Body
  trends_body : ApprovalTrendsResponse → Body
  decision_body : CheckRateLimitResponse → Body
  error_body : String → Body
  health_body : (status env version : String) → Body

pub record Header : Type 0 where
  pub content_type : Option String
  pub retry_after : Option ℤ

-- `sent` is the status line with its headers; `broken` tells that the connection is gone.
pub record ResponseWriter : Type 0 where
  pub header : Header
  pub sent : Option (ℕ × Header)
  pub body : List Body
  pub broken : Option Error

abbrev pub write_header : ResponseWriter → ℕ → ResponseWriter
write_header w status = elim w.sent [
  | some first ↦ w
  | none ↦ record w { sent = some (status, w.header) }
]

-- `json.NewEncoder(w).Encode(data)`
abbrev pub encode : ResponseWriter → Body → Option Error × ResponseWriter
encode w data_ = elim w.broken [
  | some e ↦ (some e, w)
  | none ↦ (none, record w { body = w.body ++ data_ ∷ [] })
]

unfoldable pub write_json : ResponseWriter → ℕ → Body → Option Error × ResponseWriter
write_json w status data_ =
    let w' = record w { header = record (w.header) { content_type = some "application/json" } } in
    encode (write_header w' status) data_

unfoldable pub write_error_json : ResponseWriter → ℕ → String → ResponseWriter
write_error_json w status message = (write_json w status (error_body message)).1

-- The two calls of `Decode`: the payload or the error of the first, and the error of the second.
pub record RequestBody : Type 0 where
  pub first : Result CheckRateLimitPayload
  pub second : Option Error

unfoldable pub read_json : RequestBody → Result CheckRateLimitPayload
read_json body = elim body.first [
  | err e ↦ err (wrapped (append "request body must be valid JSON: " (error_text e)) e)
  | ok payload ↦ elim body.second [
    | none ↦ err (plain "request body must contain one JSON object")
    | some e ↦
        if errors_is e eof
        then ok payload
        else err (plain "request body must contain one JSON object")
  ]
]

abbrev pub set_retry_after : ResponseWriter → ℤ → ResponseWriter
set_retry_after w n = record w { header = record (w.header) { retry_after = some n } }

-- `(duration + time.Second - 1) / time.Second`
unfoldable pub retry_after_seconds : Duration → ℤ
retry_after_seconds duration = quot (sub64 (add64 duration second) (pos 1)) 1_000_000_000

unfoldable pub internal_server_error : ResponseWriter → Error → ResponseWriter
internal_server_error w e = write_error_json w 500 "rate-limit check failed"

unfoldable pub service_unavailable_error : Duration → ResponseWriter → Error → ResponseWriter
service_unavailable_error open_timeout w e =
    write_error_json (set_retry_after w (retry_after_seconds open_timeout)) 503
      "rate-limit service temporarily unavailable"

unfoldable pub bad_request_error : ResponseWriter → Error → ResponseWriter
bad_request_error w e = write_error_json w 400 (error_text e)

unfoldable pub not_found_error : ResponseWriter → Error → ResponseWriter
not_found_error w e = write_error_json w 404 (error_text e)

unfoldable pub analytics_unavailable_error : ResponseWriter → Error → ResponseWriter
analytics_unavailable_error w e =
    write_error_json (set_retry_after w (pos 1)) 503 "analytics temporarily unavailable"

-- A writer to which nothing is written.
abbrev pub new_writer : Option Error → ResponseWriter
new_writer broken = record {
  header = record { content_type = none; retry_after = none };
  sent = none;
  body = [];
  broken = broken;
}
