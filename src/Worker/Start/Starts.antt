-- ===== src/Worker/Start/Starts.antt =====
-- When the worker starts.
use rate_limiter_as_a_servic.Base.{true}
use rate_limiter_as_a_servic.Limiter.{errors_is, server_closed}
use rate_limiter_as_a_servic.Worker.Start.{server_stopped}
use rate_limiter_as_a_servic.Base.{true}
use rate_limiter_as_a_servic.Limiter.{errors_is, server_closed, Error, ok}
use rate_limiter_as_a_servic.Base.{Option, none, ◌≡◌, false, refl}
use rate_limiter_as_a_servic.Store.{Pools, RedisClient, new_postgres_pool}
use rate_limiter_as_a_servic.Events.Status.{Texts, ensure_group}
use rate_limiter_as_a_servic.Config.{Environment}
use rate_limiter_as_a_servic.Config.Redis.Client.{new_redis_client}
use rate_limiter_as_a_servic.Worker.Config.{Config, Process, load_config}
use rate_limiter_as_a_servic.Worker.Config.Loaded.{load_config-IsWorkerConfig, IsWorkerConfig}
use rate_limiter_as_a_servic.Worker.Start.{
  Application, prepare, main, run, context_done, server_stopped,
}
use text.Mathlib.Text.{◌==◌ as str_eq}

module _ (P : Pools) (env : Environment) (process : Process) (ping : RedisClient → Option Error)
    (cfg : Config) (pool : P.Pool) where
  abbrev pub started : Application P
  started = record {
    config = cfg;
    redis_client = new_redis_client cfg.redis;
    postgres_pool = pool;
    processor = cfg.events;
  }

  -- The worker starts with every configuration that loads with a stream and a group, if Redis and
  -- PostgreSQL answer; what its loops rely on then holds of the configuration. If the consumer group
  -- is ensured, too, and the context ends the worker, the server shuts down, and it or the loop is
  -- the first to stop, then `main` ends without an error.
  pub worker_starts :
      load_config env process ≡ ok cfg
      → str_eq cfg.events.stream "" ≡ false
      → str_eq cfg.events.group "" ≡ false
      → ping (new_redis_client cfg.redis) ≡ none
      → P.pgxpool_new cfg.database_url ≡ ok pool
      → P.ping pool ≡ none
      → (texts : Texts) (created : Option Error) (served : Error)
      → ensure_group texts created ≡ none
      → errors_is served server_closed ≡ true
      → (prepare P env process ping ≡ ok started)
        × IsWorkerConfig cfg
        × (main P env process ping texts created (context_done none (server_stopped served))
            ≡ ok started)
        × (main P env process ping texts created (context_done none none) ≡ ok started)
  unfolding main prepare run new_postgres_pool
  worker_starts loads has_stream has_group answers opens reached texts created served ensured shut =
      let (accepted, works) =
        load_config-IsWorkerConfig env process cfg loads has_stream has_group in
      let prepared : prepare P env process ping ≡ ok started =
        rw (loads, answers, opens, reached, accepted) refl in
      (
        prepared,
        works,
        rw (prepared, ensured, run) (rw shut refl),
        rw (prepared, ensured, run) refl,
      )
