-- ===== src/Worker/Loop/Runs.antt =====
-- What holds of the worker's loop over every sequence of turns.
use rate_limiter_as_a_servic.Limiter.{Result}
use rate_limiter_as_a_servic.Base.{
  ℤ, String, Bool, true, false, List, [], ◌∷◌, ◌++◌, ◌≡◌, refl, ◌||◌, ◌⊎◌, inl, inr, ◌≢◌, arith,
  Bool-cases, ◌∙◌,
}
use rate_limiter_as_a_servic.Events.Services.{Database, Streams}
use rate_limiter_as_a_servic.Events.Processor.{consume_new, recover_pending}
use rate_limiter_as_a_servic.Events.Processor.Durable.{Happens, left, IsSafe, event_never_lost}
use rate_limiter_as_a_servic.Worker.Loop.{
  Turn, Wake, stop, claim, consume, select, process_from, process,
}

abbrev pub is_stop : Wake → Bool
is_stop stop = true
is_stop _ = false

-- Some turn takes the case of the context.
abbrev pub stops : List Turn → Bool
stops [] = false
stops (turn ∷ turns) = is_stop (select turn) || stops turns

abbrev IsWake : Wake → Type 0
IsWake wake = (wake ≡ stop) ⊎ (wake ≡ claim) ⊎ (wake ≡ consume)

Wake-cases : (wake : Wake) → IsWake wake
Wake-cases stop = inl refl
Wake-cases claim = inr (inl refl)
Wake-cases consume = inr (inr refl)

abbrev pub AllDone : List Turn → Type 0
AllDone [] = Unit
AllDone (turn ∷ turns) = (turn.done ≡ true) × AllDone turns

abbrev pub AllDue : List Turn → Type 0
AllDue [] = Unit
AllDue (turn ∷ turns) = (turn.due ≡ true) × AllDue turns

select-done : (turn : Turn) → turn.done ≡ true → select turn ≢ consume
unfolding select
select-done turn now = ground arith

select_not_due :
    (turn : Turn) → turn.done ≡ true → (is_stop (select turn) ≡ true) ⊎ (turn.due ≡ true)
unfolding select
select_not_due turn now = ground arith

done-stops : (turns : List Turn) → AllDone turns → (stops turns ≡ true) ⊎ AllDue turns
done-stops [] done = inr tt
done-stops (turn ∷ turns) (now, later) = elim (select_not_due turn now) [
  | inl ends ↦ inl (rw ends refl)
  | inr due ↦ elim (done-stops turns later) [
    | inl ends ↦ inl (ground arith)
    | inr dues ↦ inr (due, dues)
  ]
]

module _ (parse_int : String → Result ℤ) (D : Database) (R : Streams) where
  returned-process_from :
      (turns : List Turn) (db : D.Db) (redis : R.Redis)
      → (process_from parse_int D R turns db redis).1 ≡ stops turns
  unfolding process_from
  returned-process_from [] db redis = refl
  returned-process_from (turn ∷ turns) db redis = elim (Wake-cases (select turn)) [
    | inl ends ↦ rw (ends, process_from) refl
    | inr (inl claims) ↦
        let (_, db', redis') = recover_pending parse_int D R db redis in
        rw (claims, process_from) (returned-process_from turns db' redis')
    | inr (inr consumes) ↦
        let (_, db', redis') = consume_new parse_int D R db redis in
        rw (consumes, process_from) (returned-process_from turns db' redis')
  ]

  process_from-append :
      (turns later : List Turn) (db : D.Db) (redis : R.Redis)
      → stops turns ≡ true
      → process_from parse_int D R (turns ++ later) db redis
        ≡ process_from parse_int D R turns db redis
  unfolding process_from
  process_from-append [] later db redis ends = cc
  process_from-append (turn ∷ turns) later db redis ends = elim (Wake-cases (select turn)) [
    | inl stopped ↦ rw (stopped, process_from) refl
    | inr (inl claims) ↦
        let (_, db', redis') = recover_pending parse_int D R db redis in
        let same = process_from-append turns later db' redis' (rw claims at ends) in
        rw (claims, process_from, same) refl
    | inr (inr consumes) ↦
        let (_, db', redis') = consume_new parse_int D R db redis in
        let same = process_from-append turns later db' redis' (rw consumes at ends) in
        rw (consumes, process_from, same) refl
  ]

  process_from-Happens :
      (turns : List Turn) {x : D.Db × R.Redis} (db : D.Db) (redis : R.Redis)
      → Happens parse_int D R x (db, redis)
      → let (_, _, db', redis') = process_from parse_int D R turns db redis in
        Happens parse_int D R x (db', redis')
  unfolding process_from
  process_from-Happens [] db redis before = before
  process_from-Happens (turn ∷ turns) db redis before = elim (Wake-cases (select turn)) [
    | inl ends ↦ rw (ends, process_from) before
    | inr (inl claims) ↦
        let (_, db', redis') = recover_pending parse_int D R db redis in
        rw (claims, process_from)
          (process_from-Happens turns db' redis' (Happens.recover db redis before))
    | inr (inr consumes) ↦
        let (_, db', redis') = consume_new parse_int D R db redis in
        rw (consumes, process_from)
          (process_from-Happens turns db' redis' (Happens.consume db redis before))
  ]

  -- Whatever fails: `process` returns exactly when some turn of it takes the case of the context, and
  -- what would come after such a turn has no effect; no error of an operation ends it.
  pub process-ends :
      (turns : List Turn) (db : D.Db) (redis : R.Redis)
      → (((process parse_int D R turns db redis).1 ≡ false) × (stops turns ≡ false))
        ⊎ (((process parse_int D R turns db redis).1 ≡ true)
            × (stops turns ≡ true)
            × ((later : List Turn)
                → process parse_int D R (turns ++ later) db redis
                  ≡ process parse_int D R turns db redis))
  unfolding process
  process-ends turns db redis =
      let returned = returned-process_from turns db redis in
      elim (Bool-cases (stops turns)) [
        | inr runs ↦ inl (returned ∙ runs, runs)
        | inl ends ↦ inr (
          returned ∙ ends,
          ends,
          λ later. rw (process_from-append turns later db redis ends) refl,
        )
      ]

  -- Runs of `recover_pending` alone.
  pub data Recoveries : D.Db × R.Redis → D.Db × R.Redis → Type 0 where
    none_run : {x : D.Db × R.Redis} → Recoveries x x
    recovery :
        {x : D.Db × R.Redis} (db : D.Db) (redis : R.Redis)
        → Recoveries x (db, redis)
        → Recoveries x (left parse_int D R (recover_pending parse_int D R db redis))

  process_from-Recoveries :
      (turns : List Turn) {x : D.Db × R.Redis} (db : D.Db) (redis : R.Redis)
      → AllDone turns
      → Recoveries x (db, redis)
      → let (_, _, db', redis') = process_from parse_int D R turns db redis in
        Recoveries x (db', redis')
  unfolding process_from
  process_from-Recoveries [] db redis done before = before
  process_from-Recoveries (turn ∷ turns) db redis (now, later) before =
      elim (Wake-cases (select turn)) [
        | inl ends ↦ rw (ends, process_from) before
        | inr (inl claims) ↦
            let (_, db', redis') = recover_pending parse_int D R db redis in
            rw (claims, process_from)
              (process_from-Recoveries turns db' redis' later (recovery db redis before))
        | inr (inr consumes) ↦ absurd (select-done turn now consumes)
      ]

  -- Once the context is done, and stays so, `process` reads no new event: until it returns it only
  -- recovers pending ones, and it has returned unless the ticker had fired at every turn.
  pub process_after_done :
      (turns : List Turn) (db : D.Db) (redis : R.Redis)
      → AllDone turns
      → Recoveries
          (db, redis)
          ((process parse_int D R turns db redis).2, (process parse_int D R turns db redis).3)
        × (((process parse_int D R turns db redis).1 ≡ true) ⊎ AllDue turns)
  unfolding process
  process_after_done turns db redis done = (
    process_from-Recoveries turns db redis done none_run,
    elim (done-stops turns done) [
      | inl ends ↦ inl (returned-process_from turns db redis ∙ ends)
      | inr due ↦ inr due
    ],
  )

  -- Over a whole run of `process`, whatever its turns find and whatever fails: an event that is in the
  -- stream or the table at some time is in one of them after the run, if only operations of workers
  -- and approvals have happened between that time and the run's start.
  pub process_never_loses :
      (turns : List Turn) (x : D.Db × R.Redis) (db : D.Db) (redis : R.Redis) (id : String)
      → Happens parse_int D R x (db, redis)
      → IsSafe parse_int D R id x.0 x.1
      → IsSafe parse_int D R id
          (process parse_int D R turns db redis).2
          (process parse_int D R turns db redis).3
  unfolding process
  process_never_loses turns x db redis id before safe =
      event_never_lost parse_int D R x.0 x.1 _ _ id (process_from-Happens turns db redis before)
        safe
