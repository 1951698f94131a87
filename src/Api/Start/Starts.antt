-- ===== src/Api/Start/Starts.antt =====
-- When the API starts.
use rate_limiter_as_a_servic.Base.{true}
use rate_limiter_as_a_servic.Limiter.{errors_is, server_closed, Error, ok}
use rate_limiter_as_a_servic.Base.{Option, none, ◌≡◌, ◌≤ℤ◌, pos, refl}
use rate_limiter_as_a_servic.Store.{Pools, RedisClient}
use rate_limiter_as_a_servic.RedisBucket.Limiter.{with_defaults}
use rate_limiter_as_a_servic.Breaker.{closed_breaker}
use rate_limiter_as_a_servic.Config.{Environment}
use rate_limiter_as_a_servic.Config.Redis.Client.{
  new_redis_client, IsClientOf, new_redis_client-IsClientOf,
}
use rate_limiter_as_a_servic.Config.Api.{Config, load_config}
use rate_limiter_as_a_servic.Config.Api.Loaded.{load_config-accepted}
use rate_limiter_as_a_servic.Api.Metrics.{new_api_metrics}
use rate_limiter_as_a_servic.Api.Start.{prepare, run, main}

-- The API starts with every configuration that loads with a backlog limit that is not negative, if
-- Redis answers the ping and PostgreSQL's settings are accepted; PostgreSQL need not answer. Then
-- the breaker is closed, the limiter has the configuration's policies, and the Redis client sends
-- no command twice, has positive timeouts, and a server to go to, or a master with at least one
-- sentinel and no empty address. A server that a signal has shut down in order ends `main` without
-- an error.
pub api_starts :
    (P : Pools) (env : Environment) (ping : RedisClient → Option Error) (cfg : Config)
    (pool : P.Pool) (served : Error)
    → load_config env ≡ ok cfg
    → pos 0 ≤ℤ cfg.redis_limiter_cfg.max_event_backlog
    → ping (new_redis_client cfg.redis_cfg) ≡ none
    → P.pgxpool_new cfg.database_url ≡ ok pool
    → errors_is served server_closed ≡ true
    → (prepare P env ping
        ≡ ok (record {
          config = cfg;
          redis_client = new_redis_client cfg.redis_cfg;
          redis_limiter = with_defaults cfg.token_bucket_policies cfg.redis_limiter_cfg;
          rate_limiter = closed_breaker cfg.circuit_breaker_cfg;
          database = pool;
          metrics = new_api_metrics cfg.token_bucket_policies;
        }))
      × IsClientOf cfg.redis_cfg (new_redis_client cfg.redis_cfg)
      × (main P env ping served none ≡ prepare P env ping)
unfolding main prepare run
api_starts P env ping cfg pool served loads nonneg answers opens shut =
    let (limited, protected, redis) = load_config-accepted env cfg loads nonneg in
    (
      rw (loads, answers, opens, limited, protected) refl,
      new_redis_client-IsClientOf cfg.redis_cfg redis,
      rw (loads, answers, opens, limited, protected, shut) refl,
    )
