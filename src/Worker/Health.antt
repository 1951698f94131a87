-- ===== src/Worker/Health.antt =====
-- cmd/worker/health.go, with the `writeJSON` of cmd/worker/json.go. What a handler sends is a value;
-- the answers of the services and the present are arguments.
pub mod Ages
use rate_limiter_as_a_servic.Clock.{Time, sub, equal, zero_time, milliseconds}
use rate_limiter_as_a_servic.Limiter.{Error, Result, err, ok}
use rate_limiter_as_a_servic.Base.{ℤ, pos, ℕ, String, Option, none, some, if◌then◌else◌, ltb_ℤ}
use rate_limiter_as_a_servic.Floats.{Float64}
use rate_limiter_as_a_servic.Events.Status
use rate_limiter_as_a_servic.Events.Status.{Texts, Replies}

unfoldable pub oldest_event_age : Time → Time → ℤ
oldest_event_age now oldest =
    let age = sub now oldest in
    if equal oldest zero_time then pos 0 else if ltb_ℤ age (pos 0) then pos 0 else milliseconds age

module _ (N : Float64) where
  pub record StatusResponse : Type 0 where
    pub stream_length : ℤ
    pub pending_events : ℤ
    pub oldest_event_age_ms : ℤ
    pub configured_limit : ℤ
    pub capacity_used_percent : N.F

  -- The objects that are encoded.
  pub data Body : Type 0 where
    health_response : String → Body
    status_response : StatusResponse → Body

  -- What `writeJSON` sends.
  pub record Answer : Type 0 where
    pub content_type : String
    pub status : ℕ
    pub body : Body

  abbrev pub write_json : ℕ → Body → Answer
  write_json status data_ = record {
    content_type = "application/json";
    status = status;
    body = data_;
  }

  abbrev pub health_check_handler : Answer
  health_check_handler = write_json 200 (health_response "available")

  unfoldable pub readiness_check_handler : Option Error → Option Error → Answer
  readiness_check_handler redis_ping pool_ping = elim (Status.ready redis_ping pool_ping) [
    | some e ↦ write_json 503 (health_response "unavailable")
    | none ↦ write_json 200 (health_response "available")
  ]

  -- The answer of a status that was read. `max_backlog` is the configuration's.
  abbrev pub status_response_of : Time → ℤ → Status.Status → StatusResponse
  status_response_of now max_backlog read = record {
    stream_length = read.stream_length;
    pending_events = read.pending_count;
    oldest_event_age_ms = oldest_event_age now read.oldest_event;
    configured_limit = max_backlog;
    capacity_used_percent =
        N.divide (N.multiply (N.of_int read.stream_length) (N.of_int (pos 100)))
          (N.of_int max_backlog);
  }

  unfoldable pub status_handler : Texts → ℤ → Time → Result Replies → Answer
  status_handler texts max_backlog now replies = elim (Status.status texts replies) [
    | err e ↦ write_json 503 (health_response "unavailable")
    | ok read ↦ write_json 200 (status_response (status_response_of now max_backlog read))
  ]
