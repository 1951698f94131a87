-- ===== src/Worker/Health/Ages.antt =====
-- The age that the worker's status shows.
use rate_limiter_as_a_servic.Limiter.{ok}
use rate_limiter_as_a_servic.Events.Decode.{XMessage}
use rate_limiter_as_a_servic.Floats.{Float64}
use rate_limiter_as_a_servic.Clock.{
  Time, equal, zero_time, milliseconds, millisecond, sub_exact, unix_milli,
}
use rate_limiter_as_a_servic.Base.{
  ℤ, pos, false, ◌≡◌, ◌≤ℤ◌, ◌<ℤ◌, ◌+ℤ◌, ◌-ℤ◌, ◌*ℤ◌, quot, max_int64, int_laws, arith, -ℤ_parts,
  ltb_ℤ-false, refl, negsuc, List, String, ◌∷◌, true,
}
use rate_limiter_as_a_servic.Worker.Health.{
  oldest_event_age, status_handler, write_json, status_response, StatusResponse, status_response_of,
  ok,
}
use rate_limiter_as_a_servic.Events.Status.{Texts, Replies, status, instant_of}

-- A whole number of milliseconds, rounded down.
milliseconds-floor :
    (d : ℤ)
    → pos 0 ≤ℤ d
    → (pos 0 ≤ℤ milliseconds d)
      × (milliseconds d *ℤ millisecond ≤ℤ d)
      × (d <ℤ milliseconds d *ℤ millisecond +ℤ millisecond)
unfolding milliseconds quot ◌*ℤ◌ ◌+ℤ◌
milliseconds-floor (pos n) h = (omega arith, ground arith, ground arith)
milliseconds-floor (negsuc n) h = absurd (omega arith)

module _ (now oldest : Time) (not_zero : equal oldest zero_time ≡ false) (past : oldest ≤ℤ now)
    (recent : now -ℤ oldest ≤ℤ max_int64) where
  pub oldest_event_age-past : oldest_event_age now oldest ≡ milliseconds (now -ℤ oldest)
  unfolding oldest_event_age
  oldest_event_age-past =
      let exact = sub_exact now oldest (omega (arith, -ℤ_parts now oldest)) recent in
      rw (not_zero, exact, ltb_ℤ-false (now -ℤ oldest) (pos 0) (omega (arith, -ℤ_parts now oldest)))
        refl

  pub oldest_event_age-bounds :
      (pos 0 ≤ℤ oldest_event_age now oldest)
      × (oldest +ℤ oldest_event_age now oldest *ℤ millisecond ≤ℤ now)
      × (now <ℤ oldest +ℤ oldest_event_age now oldest *ℤ millisecond +ℤ millisecond)
  oldest_event_age-bounds =
      let age = milliseconds (now -ℤ oldest) in
      let (nonneg, low, high) =
        milliseconds-floor (now -ℤ oldest) (omega (arith, -ℤ_parts now oldest)) in
      rw oldest_event_age-past (nonneg, omega (int_laws, low), omega (int_laws, high))

unix_milli-later : (t : ℤ) → pos 0 ≤ℤ t → equal (unix_milli t) zero_time ≡ false
unfolding unix_milli ◌+ℤ◌ ◌*ℤ◌
unix_milli-later (pos n) nonneg = ground arith
unix_milli-later (negsuc n) nonneg = absurd (omega arith)

instant_of-cut :
    (texts : Texts) (id text after : String) (t : ℤ)
    → texts.cut id "-" ≡ (text, after, true)
    → texts.parse_int text ≡ ok t
    → instant_of texts id ≡ ok (unix_milli t)
unfolding instant_of
instant_of-cut texts id text after t cuts parses = rw (cuts, instant_of) (rw parses refl)

status-first :
    (texts : Texts) (replies : Replies) (entry : XMessage) (older : List XMessage) (instant : Time)
    → replies.oldest_value ≡ entry ∷ older
    → instant_of texts entry.id ≡ ok instant
    → status texts (ok replies)
      ≡ ok (record {
        stream_length = replies.length_value;
        pending_count = replies.pending_value;
        oldest_event = instant;
      })
unfolding status
status-first texts replies entry older instant first found = rw (first, status) (rw found refl)

-- The status endpoint with a stream whose first entry has the ID that Redis gave it at `t`
-- milliseconds: while the entry is not from the future, and less than 292 years old, the answer is
-- 200 with the stream's length, its pending entries and the entry's age, rounded down to whole
-- milliseconds.
pub status_handler-age :
    (N : Float64) (texts : Texts) (max_backlog : ℤ) (now : Time) (replies : Replies)
    (entry : XMessage) (older : List XMessage) (text after : String) (t : ℤ)
    → replies.oldest_value ≡ entry ∷ older
    → texts.cut entry.id "-" ≡ (text, after, true)
    → texts.parse_int text ≡ ok t
    → pos 0 ≤ℤ t
    → unix_milli t ≤ℤ now
    → now -ℤ unix_milli t ≤ℤ max_int64
    → (r : StatusResponse N) × (status_handler N texts max_backlog now (ok replies)
        ≡ write_json N 200 (status_response r))
      × (r.stream_length ≡ replies.length_value)
      × (r.pending_events ≡ replies.pending_value)
      × (r.configured_limit ≡ max_backlog)
      × (pos 0 ≤ℤ r.oldest_event_age_ms)
      × (unix_milli t +ℤ r.oldest_event_age_ms *ℤ millisecond ≤ℤ now)
      × (now <ℤ unix_milli t +ℤ r.oldest_event_age_ms *ℤ millisecond +ℤ millisecond)
unfolding status_handler
status_handler-age N texts max_backlog now replies entry older text after t first cuts parses nonneg
      past recent =
    let (positive, low, high) =
      oldest_event_age-bounds now (unix_milli t) (unix_milli-later t nonneg) past recent in
    let found = instant_of-cut texts entry.id text after t cuts parses in
    let read = status-first texts replies entry older (unix_milli t) first found in
    (
      status_response_of N now max_backlog (record {
        stream_length = replies.length_value;
        pending_count = replies.pending_value;
        oldest_event = unix_milli t;
      }),
      rw (read, status_handler) refl,
      refl,
      refl,
      refl,
      positive,
      low,
      high,
    )
