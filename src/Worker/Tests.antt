-- ===== src/Worker/Tests.antt =====
-- Tests of the worker's monitor, and its theorems at concrete inputs.
use rate_limiter_as_a_servic.Clock.{Time, unix_milli, millisecond}
use rate_limiter_as_a_servic.Limiter.{ok}
use rate_limiter_as_a_servic.Base.{true, false, ◌++◌, ◌⊎◌, inl, lookup, floor_mod, ◌+ℤ◌, ◌-ℤ◌, ◌<ℤ◌}
use text.Mathlib.Text.{◌==◌ as str_eq}
use rate_limiter_as_a_servic.Floats.Whole.{whole_numbers}
use rate_limiter_as_a_servic.Events.Decode.{
  approval_request, string_field, integer_field, checked_request,
}
use rate_limiter_as_a_servic.Events.Memory.{parse_int, tables, stream, approved}
use rate_limiter_as_a_servic.Events.Processor.{
  consume_new, recover_pending, persist_streams, persist_messages, requests_of, insert_all,
}
use rate_limiter_as_a_servic.Events.Processor.Durable.{IsSafe, Happens}
use rate_limiter_as_a_servic.Events.Status.{Texts, Replies}
use rate_limiter_as_a_servic.Worker.Health.{
  StatusResponse, status_handler, write_json, status_response,
}
use rate_limiter_as_a_servic.Worker.Health.Ages.{status_handler-age}
use rate_limiter_as_a_servic.Worker.Loop.{
  Turn, Run, process, process_from, select, worker_started, persisted_events, worker_stopped,
}
use rate_limiter_as_a_servic.Worker.Loop.Runs.{
  stops, AllDue, Recoveries, process-ends, process_after_done, process_never_loses,
}
use rate_limiter_as_a_servic.Base.{
  ℤ, pos, List, mul64, Option, ◌*ℤ◌, ◌≤ℤ◌, some, ◌≡◌, none, ◌∷◌, arith, [], refl,
}
use rate_limiter_as_a_servic.Worker.Monitor.{
  Backlog, monitor_backlog, backlog_state, tick, warning_threshold_crossed, admission_stopped,
  returned_below_warning, backlog_normal, backlog_warning,
}
use rate_limiter_as_a_servic.Worker.Monitor.Levels.{state_of_log, state_of_log-monitor_backlog}

abbrev config : Backlog
config = record { max_backlog = pos 100; warning_level = pos 80 }

-- Newest first.
abbrev ticks : List (Option ℤ)
ticks = some (pos 10) ∷ none ∷ some (pos 90) ∷ some (pos 100) ∷ some (pos 20) ∷ []

-- A backlog that drains through the warning level: the line of the way down from full to warning is
-- that of the way up, and none says that admission has resumed.
drained_log :
    (monitor_backlog config ticks).0
    ≡ admission_stopped ∷ warning_threshold_crossed ∷ returned_below_warning ∷ []
unfolding monitor_backlog tick backlog_state mul64 ◌*ℤ◌
drained_log = refl

state_of_log-monitor_backlog_example :
    (state_of_log backlog_normal (monitor_backlog config (none ∷ some (pos 90) ∷ [])).0
      ≡ (monitor_backlog config (none ∷ some (pos 90) ∷ [])).1.state)
    × ((monitor_backlog config (none ∷ some (pos 90) ∷ [])).1.state ≡ backlog_warning)
unfolding backlog_state mul64 ◌*ℤ◌
state_of_log-monitor_backlog_example =
    state_of_log-monitor_backlog config (none ∷ some (pos 90) ∷ [])

abbrev turn : Turn
turn = record { done = false; due = false; takes_done = false; done_later = false }

-- A batch is read, a recovery finds nothing, and the context ends the loop.
abbrev turns : List Turn
turns = turn ∷ record turn { due = true } ∷ record turn { done = true } ∷ []

abbrev ended : Run parse_int tables stream
ended = process parse_int tables stream turns [] (approved ∷ [])

loop_log : ended.0 ≡ worker_started ∷ persisted_events 1 ∷ worker_stopped ∷ []
unfolding process process_from select consume_new recover_pending persist_streams persist_messages
    requests_of insert_all approval_request string_field integer_field checked_request lookup
    floor_mod ◌+ℤ◌ ◌-ℤ◌ ◌*ℤ◌
loop_log = refl

process-ends_example :
    ((ended.1 ≡ false) × (stops turns ≡ false))
    ⊎ ((ended.1 ≡ true)
        × (stops turns ≡ true)
        × ((later : List Turn)
            → process parse_int tables stream (turns ++ later) [] (approved ∷ []) ≡ ended))
process-ends_example = process-ends parse_int tables stream turns [] (approved ∷ [])

abbrev closing : List Turn
closing = record turn { done = true; due = true } ∷ record turn { done = true } ∷ []

abbrev closed : Run parse_int tables stream
closed = process parse_int tables stream closing [] (approved ∷ [])

process_after_done_example :
    Recoveries parse_int tables stream ([], approved ∷ []) (closed.2, closed.3)
    × ((closed.1 ≡ true) ⊎ AllDue closing)
process_after_done_example =
    process_after_done parse_int tables stream closing [] (approved ∷ []) (refl, (refl, tt))

process_never_loses_example : IsSafe parse_int tables stream "1790000000000-0" ended.2 ended.3
process_never_loses_example =
    process_never_loses parse_int tables stream turns ([], approved ∷ []) [] (approved ∷ [])
      "1790000000000-0" Happens.idle (inl refl)

-- The texts of one entry's ID.
abbrev texts : Texts
texts = record {
  has_prefix = λ text prefix. str_eq text "BUSYGROUP";
  cut = λ text separator. ("1790000000000", "0", true);
  quote = λ text. text;
  parse_int = parse_int;
}

abbrev replies : Replies
replies = record { length_value = pos 1; pending_value = pos 0; oldest_value = approved ∷ [] }

-- A second and a half after the entry.
abbrev now : Time
now = pos 63_925_596_801_500_000_000

status_handler-age_example :
    (r : StatusResponse whole_numbers) × (status_handler whole_numbers texts
        (pos 100)
        now
        (ok replies)
      ≡ write_json whole_numbers 200 (status_response r))
    × (r.stream_length ≡ pos 1)
    × (r.pending_events ≡ pos 0)
    × (r.configured_limit ≡ pos 100)
    × (pos 0 ≤ℤ r.oldest_event_age_ms)
    × (unix_milli (pos 1_790_000_000_000) +ℤ r.oldest_event_age_ms *ℤ millisecond ≤ℤ now)
    × (now
        <ℤ unix_milli (pos 1_790_000_000_000)
          +ℤ r.oldest_event_age_ms *ℤ millisecond
          +ℤ millisecond)
unfolding unix_milli ◌+ℤ◌ ◌-ℤ◌ ◌*ℤ◌
status_handler-age_example =
    status_handler-age whole_numbers texts (pos 100) now replies approved [] "1790000000000" "0"
      (pos 1_790_000_000_000) refl refl refl (omega arith) (omega arith) (omega arith)
