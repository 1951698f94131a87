-- ===== src/Worker/Start.antt =====
-- cmd/worker/main.go and `run` of cmd/worker/api.go. The answers of the services are parameters;
-- `logger.Fatalw`, which ends the process, is an error.
pub mod Starts
use rate_limiter_as_a_servic.Base.{if◌then◌else◌}
use rate_limiter_as_a_servic.Limiter.{
  errors_is, server_closed, Result, Error, ok, err, ◌>>=◌, and_then,
}
use rate_limiter_as_a_servic.Base.{String, Option, true, none, some}
use rate_limiter_as_a_servic.Store.{Pools, RedisClient, pinged, new_postgres_pool, or_fatal}
use rate_limiter_as_a_servic.Events.Processor
use rate_limiter_as_a_servic.Events.Processor.{because, new_processor}
use rate_limiter_as_a_servic.Events.Status.{Texts, ensure_group}
use rate_limiter_as_a_servic.Config.{Environment}
use rate_limiter_as_a_servic.Config.Redis.Client.{new_redis_client}
use rate_limiter_as_a_servic.Worker.Config.{Config, Process, load_config}

-- How `run` is woken: by the context, where `shutdown` is the answer of the server's Shutdown, or by
-- the server or the loop that has stopped first, in either case with what it has sent.
pub data Ending : Type 0 where
  context_done : (shutdown first_stopped : Option Error) → Ending
  stopped_first : Option Error → Ending

-- What the server's goroutine sends once ListenAndServe has returned with `served`.
abbrev pub server_stopped : Error → Option Error
server_stopped served = if errors_is served server_closed then none else some served

-- `created` is the answer of XGROUP CREATE; the server and the loops start after it.
unfoldable pub run : Texts → Option Error → Ending → Option Error
run texts created ending = elim (ensure_group texts created) [
  | some e ↦ some e
  | none ↦ elim ending [
    | context_done shutdown first_stopped ↦ elim shutdown [ some e ↦ some e | none ↦ first_stopped ]
    | stopped_first e ↦ e
  ]
]

module _ (P : Pools) where
  pub record Application : Type 0 where
    pub config : Config
    pub redis_client : RedisClient
    pub postgres_pool : P.Pool
    pub processor : Processor.Config

  -- `main` up to `run`.
  unfoldable pub prepare : Environment → Process → (RedisClient → Option Error) → Result Application
  prepare env process ping = do
    cfg ← or_fatal "invalid worker configuration" (load_config env process)
    redis_client ←
        or_fatal "failed to connect to Redis"
          (pinged (new_redis_client cfg.redis) (ping (new_redis_client cfg.redis)))
    pool ← or_fatal "failed to connect to PostgreSQL" (new_postgres_pool P cfg.database_url)
    processor ←
        or_fatal "failed to create approval event processor" (new_processor true true cfg.events)
    ok (record {
      config = cfg;
      redis_client = redis_client;
      postgres_pool = pool;
      processor = processor;
    })

  -- `main`: the application when `run` has returned without an error.
  unfoldable pub main :
      Environment
      → Process
      → (RedisClient → Option Error)
      → Texts
      → Option Error
      → Ending
      → Result Application
  main env process ping texts created ending = and_then (prepare env process ping) (λ app.
      or_fatal "approval worker stopped unexpectedly" (pinged app (run texts created ending)))
