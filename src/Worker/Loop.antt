-- ===== src/Worker/Loop.antt =====
-- cmd/worker/worker.go: the loop over the processor. What `select` finds and takes, and whether the
-- context is done when a failure is logged, are the turn's; the wait before a retry changes nothing
-- and is left out. The lines of the log are values.
pub mod Runs
use rate_limiter_as_a_servic.Limiter.{Result, Error}
use rate_limiter_as_a_servic.Base.{
  ℤ, ℕ, String, Bool, true, false, List, [], ◌∷◌, ◌++◌, Option, none, some, if◌then◌else◌, ltb,
  ◌&&◌,
}
use rate_limiter_as_a_servic.Events.Services.{Database, Streams}
use rate_limiter_as_a_servic.Events.Processor.{consume_new, recover_pending}

-- The cases of the `select`.
pub data Wake : Type 0 where
  stop claim consume : Wake

-- `done`: the context is done. `due`: the ticker has fired. `takes_done`: of these two the first is
-- taken, as `select` chooses when both are ready. `done_later`: the context is done once the
-- operation has failed.
pub record Turn : Type 0 where
  pub done : Bool
  pub due : Bool
  pub takes_done : Bool
  pub done_later : Bool

-- The lines that the loop logs.
pub data LoopLine : Type 0 where
  worker_started worker_stopped : LoopLine
  recovered_events persisted_events : ℕ → LoopLine
  operation_failed : String → Error → LoopLine

unfoldable pub select : Turn → Wake
select turn =
    if turn.done && turn.due
    then if turn.takes_done then stop else claim
    else if turn.done
    then stop
    else if turn.due
    then claim
    else consume

unfoldable pub log_failure : Turn → String → Error → List LoopLine
log_failure turn operation e = if turn.done_later then [] else operation_failed operation e ∷ []

-- What an operation's count and error have the loop log.
abbrev pub report : Turn → String → (ℕ → LoopLine) → ℕ × Option Error → List LoopLine
report turn operation line (count, some e) = log_failure turn operation e
report turn operation line (count, none) = if ltb 0 count then line count ∷ [] else []

module _ (parse_int : String → Result ℤ) (D : Database) (R : Streams) where
  -- The log, whether `process` has returned, and what it leaves.
  abbrev pub Run : Type 0
  Run = List LoopLine × Bool × D.Db × R.Redis

  -- The loop; without a turn that ends it, it is still running after the last.
  unfoldable pub process_from : List Turn → D.Db → R.Redis → Run
  process_from [] db redis = ([], false, db, redis)
  process_from (turn ∷ turns) db redis = elim (select turn) [
    | stop ↦ (worker_stopped ∷ [], true, db, redis)
    | claim ↦
        let (result, db', redis') = recover_pending parse_int D R db redis in
        let (log, returned, db'', redis'') = process_from turns db' redis' in
        (
          report turn "recover abandoned approval events" recovered_events result ++ log,
          returned,
          db'',
          redis'',
        )
    | consume ↦
        let (result, db', redis') = consume_new parse_int D R db redis in
        let (log, returned, db'', redis'') = process_from turns db' redis' in
        (
          report turn "consume approval events" persisted_events result ++ log,
          returned,
          db'',
          redis'',
        )
  ]

  unfoldable pub process : List Turn → D.Db → R.Redis → Run
  process turns db redis =
      let (log, returned, db', redis') = process_from turns db redis in
      (worker_started ∷ log, returned, db', redis')
