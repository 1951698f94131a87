-- ===== src/Api/Start.antt =====
-- cmd/api/main.go, and `run` of cmd/api/api.go. The answers of the ping and of
-- `pgxpool.New` are parameters; `logger.Fatalw`, which ends the process, is an error.
pub mod Starts
use rate_limiter_as_a_servic.Limiter.{errors_is, server_closed}
use rate_limiter_as_a_servic.Base.{not, some, if◌then◌else◌}
use rate_limiter_as_a_servic.Limiter.{Result, Error, ok, err, and_then, ◌>>=◌}
use rate_limiter_as_a_servic.Base.{String, Option, true}
use rate_limiter_as_a_servic.Store
use rate_limiter_as_a_servic.Store.{Pools, RedisClient, pinged, open_postgres_pool, or_fatal}
use rate_limiter_as_a_servic.Events.Processor.{because}
use rate_limiter_as_a_servic.RedisBucket.Limiter.{
  RedisTokenBucketRateLimiter, new_redis_token_bucket_rate_limiter,
}
use rate_limiter_as_a_servic.Breaker.{CircuitBreakerLimiter, new_circuit_breaker_limiter}
use rate_limiter_as_a_servic.Config.{Environment}
use rate_limiter_as_a_servic.Config.Redis.Client.{new_redis_client}
use rate_limiter_as_a_servic.Config.Api.{Config, load_config}
use rate_limiter_as_a_servic.Api.Metrics.{ApiMetrics, new_api_metrics}

-- `served` is what ListenAndServe returns with, and `shutdown` the answer of Shutdown, which a signal
-- has called.
unfoldable pub run : Error → Option Error → Option Error
run served shutdown = if not (errors_is served server_closed) then some served else shutdown

module _ (P : Pools) where
  -- The circuit breaker is the application's limiter, and has the Redis limiter inside.
  pub record Application : Type 0 where
    pub config : Config
    pub redis_client : RedisClient
    pub redis_limiter : RedisTokenBucketRateLimiter
    pub rate_limiter : CircuitBreakerLimiter
    pub database : P.Pool
    pub metrics : ApiMetrics

  -- `main` up to `run`.
  unfoldable pub prepare : Environment → (RedisClient → Option Error) → Result Application
  prepare env ping = do
    cfg ← or_fatal "invalid application configuration" (load_config env)
    redis_client ←
        or_fatal "failed to connect to Redis"
          (pinged (new_redis_client cfg.redis_cfg) (ping (new_redis_client cfg.redis_cfg)))
    pool ← or_fatal "invalid PostgreSQL configuration" (open_postgres_pool P cfg.database_url)
    redis_limiter ←
        or_fatal "failed to create rate limiter"
          (new_redis_token_bucket_rate_limiter true cfg.token_bucket_policies cfg.redis_limiter_cfg)
    limiter ←
        or_fatal "failed to protect rate limiter"
          (new_circuit_breaker_limiter true cfg.circuit_breaker_cfg)
    ok (record {
      config = cfg;
      redis_client = redis_client;
      redis_limiter = redis_limiter;
      rate_limiter = limiter;
      database = pool;
      metrics = new_api_metrics cfg.token_bucket_policies;
    })

  -- `main`: the application when `run` has returned without an error.
  unfoldable pub main :
      Environment → (RedisClient → Option Error) → Error → Option Error → Result Application
  main env ping served shutdown =
      and_then (prepare env ping)
        (λ app. or_fatal "server stopped unexpectedly" (pinged app (run served shutdown)))
