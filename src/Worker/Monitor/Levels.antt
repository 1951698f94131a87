-- ===== src/Worker/Monitor/Levels.antt =====
-- The levels of the backlog and the log of their changes.
use rate_limiter_as_a_servic.Base.{
  Bool, true, false, if◌then◌else◌, ◌++◌, ap, ltb_ℤ, eqb_ℤ, ◌&&◌, nat_eq, ℤ, pos, List, Option,
  ◌≤ℤ◌, none, some, ◌≡◌, ◌*ℤ◌, max_int64, [], ◌∷◌, ◌≤◌, refl, mul64, negsuc, ℕ, arith, ◌*◌,
  wrap64-id, int_laws, ◌∙◌, eq_of_parts,
}
use rate_limiter_as_a_servic.Worker.Monitor.{
  LogLine, warning_threshold_crossed, admission_stopped, admission_resumed, returned_below_warning,
  fully_drained, Monitor, log_backlog_transition, backlog_warning, BacklogState, Backlog, tick,
  monitor_backlog, backlog_state, backlog_normal, backlog_full, level,
}

-- The length that was last read.
abbrev pub last_length : List (Option ℤ) → Option ℤ
last_length [] = none
last_length (some length ∷ older) = some length
last_length (none ∷ older) = last_length older

abbrev pub state_of : Backlog → Option ℤ → BacklogState
state_of config none = backlog_normal
state_of config (some length) = backlog_state config length

-- However reads fail in between, the monitor's state is the level of the length that it read last,
-- and `normal` before the first.
state-monitor_backlog :
    (config : Backlog) (ticks : List (Option ℤ))
    → (monitor_backlog config ticks).1.state ≡ state_of config (last_length ticks)
unfolding monitor_backlog tick
state-monitor_backlog config [] = refl
state-monitor_backlog config (some length ∷ older) = refl
state-monitor_backlog config (none ∷ older) = state-monitor_backlog config older

-- What a reader of the log takes for the state after a line, and after all of them.
abbrev pub line_state : BacklogState → LogLine → BacklogState
line_state state warning_threshold_crossed = backlog_warning
line_state state admission_stopped = backlog_full
line_state state admission_resumed = backlog_normal
line_state state returned_below_warning = backlog_normal
line_state state fully_drained = state

abbrev pub state_of_log : BacklogState → List LogLine → BacklogState
state_of_log state [] = state
state_of_log state (line ∷ lines) = state_of_log (line_state state line) lines

state_of_log-append :
    (state : BacklogState) (xs ys : List LogLine)
    → state_of_log state (xs ++ ys) ≡ state_of_log (state_of_log state xs) ys
state_of_log-append state [] ys = refl
state_of_log-append state (x ∷ xs) ys = state_of_log-append (line_state state x) xs ys

abbrev transition : BacklogState → BacklogState → List LogLine
transition previous next =
    if nat_eq (level next) (level previous) then [] else log_backlog_transition previous next ∷ []

state_of_log-transition :
    (previous next : BacklogState) → state_of_log previous (transition previous next) ≡ next
state_of_log-transition backlog_normal backlog_normal = refl
state_of_log-transition backlog_normal backlog_warning = refl
state_of_log-transition backlog_normal backlog_full = refl
state_of_log-transition backlog_warning backlog_normal = refl
state_of_log-transition backlog_warning backlog_warning = refl
state_of_log-transition backlog_warning backlog_full = refl
state_of_log-transition backlog_full backlog_normal = refl
state_of_log-transition backlog_full backlog_warning = refl
state_of_log-transition backlog_full backlog_full = refl

state_of_log-drained :
    (state : BacklogState) (drained : Bool)
    → state_of_log state (if drained then fully_drained ∷ [] else []) ≡ state
state_of_log-drained state true = refl
state_of_log-drained state false = refl

state_of_log-tick :
    (config : Backlog) (m : Monitor) (status : Option ℤ)
    → state_of_log m.state (tick config m status).0 ≡ (tick config m status).1.state
unfolding tick
state_of_log-tick config m none = refl
state_of_log-tick config m (some length) =
    let next = backlog_state config length in
    let drained = ltb_ℤ (pos 0) m.previous_length && eqb_ℤ length (pos 0) in
    state_of_log-append m.state (transition m.state next)
      (if drained then fully_drained ∷ [] else [])
    ∙ ap (λ s. state_of_log s (if drained then fully_drained ∷ [] else []))
        (state_of_log-transition m.state next)
    ∙ state_of_log-drained next drained

-- However reads fail in between, who reads the lines of the log from the first knows the monitor's
-- state, which is the level of the length that was read last, and `normal` before the first.
pub state_of_log-monitor_backlog :
    (config : Backlog) (ticks : List (Option ℤ))
    → (state_of_log backlog_normal (monitor_backlog config ticks).0
        ≡ (monitor_backlog config ticks).1.state)
      × ((monitor_backlog config ticks).1.state ≡ state_of config (last_length ticks))
unfolding monitor_backlog
state_of_log-monitor_backlog config [] = (refl, refl)
state_of_log-monitor_backlog config (status ∷ older) =
    let (log, m) = monitor_backlog config older in
    let (told, _) = state_of_log-monitor_backlog config older in
    (
      state_of_log-append backlog_normal log (tick config m status).0
          ∙ ap (λ s. state_of_log s (tick config m status).0) told
          ∙ state_of_log-tick config m status,
      state-monitor_backlog config (status ∷ older),
    )

hundredfold : (n : ℕ) → pos (n * 100) ≤ℤ max_int64 → mul64 (pos n) (pos 100) ≡ pos (n * 100)
unfolding mul64 ◌*ℤ◌
hundredfold n small =
    wrap64-id (pos n *ℤ pos 100) (grind int_laws, grind int_laws) ∙ eq_of_parts _ _ (grind int_laws)

-- A longer stream never has a lower level, as long as a hundred times its length fits into 64 bits.
backlog_state_mono :
    (config : Backlog) (a b : ℤ)
    → pos 0 ≤ℤ a
    → a ≤ℤ b
    → b ≤ℤ pos 92_233_720_368_547_758
    → level (backlog_state config a) ≤ level (backlog_state config b)
unfolding backlog_state
backlog_state_mono config (negsuc a) b lo ab hi = absurd (omega arith)
backlog_state_mono config (pos a) (negsuc b) lo ab hi = absurd (omega arith)
backlog_state_mono config (pos a) (pos b) lo ab hi =
    let scaled_a = hundredfold a (omega arith) in
    let scaled_b = hundredfold b (omega arith) in rw (scaled_a, scaled_b) (grind arith)

-- At the configured limit the stream is full, whatever the warning level is.
backlog_state-full :
    (config : Backlog) (length : ℤ)
    → config.max_backlog ≤ℤ length
    → backlog_state config length ≡ backlog_full
unfolding backlog_state
backlog_state-full config length full = ground arith
