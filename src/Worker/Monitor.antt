-- ===== src/Worker/Monitor.antt =====
-- cmd/worker/monitor.go: the watch over the backlog. A tick of the ticker is one step; what it logs
-- is a value.
pub mod Levels
use rate_limiter_as_a_servic.Base.{
  ℤ, pos, if◌then◌else◌, ℕ, Option, List, leb_ℤ, [], ◌∷◌, mul64, some, ◌++◌, nat_eq, ltb_ℤ, ◌&&◌,
  eqb_ℤ, none,
}

pub data BacklogState : Type 0 where
  backlog_normal backlog_warning backlog_full : BacklogState

-- The lines that the monitor logs.
pub data LogLine : Type 0 where
  warning_threshold_crossed admission_stopped admission_resumed returned_below_warning : LogLine
  fully_drained : LogLine

-- The fields of the worker's configuration that it reads.
pub record Backlog : Type 0 where
  pub max_backlog : ℤ
  pub warning_level : ℤ

unfoldable pub backlog_state : Backlog → ℤ → BacklogState
backlog_state config length =
    if leb_ℤ config.max_backlog length
    then backlog_full
    else if leb_ℤ (mul64 config.max_backlog config.warning_level) (mul64 length (pos 100))
    then backlog_warning
    else backlog_normal

abbrev pub level : BacklogState → ℕ
level backlog_normal = 0
level backlog_warning = 1
level backlog_full = 2

-- The line of `logBacklogTransition`.
abbrev pub log_backlog_transition : BacklogState → BacklogState → LogLine
log_backlog_transition previous backlog_warning = warning_threshold_crossed
log_backlog_transition previous backlog_full = admission_stopped
log_backlog_transition backlog_full backlog_normal = admission_resumed
log_backlog_transition previous backlog_normal = returned_below_warning

-- The variables of the loop.
pub record Monitor : Type 0 where
  pub state : BacklogState
  pub previous_length : ℤ

abbrev pub new_monitor : Monitor
new_monitor = record { state = backlog_normal; previous_length = pos 0 }

-- A tick: `none` if the status cannot be read, else the stream's length.
unfoldable pub tick : Backlog → Monitor → Option ℤ → List LogLine × Monitor
tick config m none = ([], m)
tick config m (some length) =
    let next = backlog_state config length in
    let changed =
      if nat_eq (level next) (level m.state)
      then []
      else log_backlog_transition m.state next ∷ [] in
    let drained =
      if ltb_ℤ (pos 0) m.previous_length && eqb_ℤ length (pos 0) then fully_drained ∷ [] else [] in
    (changed ++ drained, record { state = next; previous_length = length })

-- The loop over the ticks, the newest first; the log is in the order of time.
unfoldable pub monitor_backlog : Backlog → List (Option ℤ) → List LogLine × Monitor
monitor_backlog config [] = ([], new_monitor)
monitor_backlog config (status ∷ older) =
    let (log, m) = monitor_backlog config older in
    let (lines, m') = tick config m status in (log ++ lines, m')
