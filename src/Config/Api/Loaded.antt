-- ===== src/Config/Api/Loaded.antt =====
-- What the API's configuration satisfies once it is loaded.
use rate_limiter_as_a_servic.Base.{ap, pos}
use rate_limiter_as_a_servic.Config.{get_env, get_env_as_int}
use rate_limiter_as_a_servic.Limiter.{validate_policies, ok, and_then-ok, ok-injective}
use rate_limiter_as_a_servic.Base.{
  pos, ◌≡◌, true, ◌≤ℤ◌, sym, ltb_ℤ, false, refl, none, subst, arith,
}
use rate_limiter_as_a_servic.TokenBucket.{validate_token_bucket_policies}
use rate_limiter_as_a_servic.Breaker.{new_circuit_breaker_limiter, closed_breaker}
use rate_limiter_as_a_servic.RedisBucket.Limiter.{
  new_redis_token_bucket_rate_limiter, with_defaults,
}
use rate_limiter_as_a_servic.Config.{Environment, positive_duration, load_circuit_breaker_config}
use rate_limiter_as_a_servic.Config.Accepted.{load_circuit_breaker_config-accepted}
use rate_limiter_as_a_servic.Config.Redis.{RedisConfig}
use rate_limiter_as_a_servic.Config.Redis.Sentinels.{
  IsRedisConfig, load_redis_config_with-IsRedisConfig,
}
use rate_limiter_as_a_servic.Config.Api.{
  Config, load_config, load_redis_config, token_bucket_policies, RedisTokenBucketConfig,
}

-- The policies are valid.
policies_valid : validate_token_bucket_policies token_bucket_policies ≡ none
unfolding validate_token_bucket_policies validate_policies
policies_valid = refl

backlog_default :
    (cfg : RedisTokenBucketConfig)
    → pos 0 ≤ℤ cfg.max_event_backlog
    → ltb_ℤ (with_defaults token_bucket_policies cfg).max_backlog (pos 0) ≡ false
backlog_default cfg nonneg = ground arith

limiter_accepted :
    (cfg : RedisTokenBucketConfig)
    → pos 0 ≤ℤ cfg.max_event_backlog
    → new_redis_token_bucket_rate_limiter true token_bucket_policies cfg
      ≡ ok (with_defaults token_bucket_policies cfg)
unfolding new_redis_token_bucket_rate_limiter
limiter_accepted cfg nonneg = rw (policies_valid, backlog_default cfg nonneg) refl

load_redis_config-IsRedisConfig :
    (env : Environment) (cfg : RedisConfig) → load_redis_config env ≡ ok cfg → IsRedisConfig cfg
unfolding load_redis_config
load_redis_config-IsRedisConfig env cfg e = load_redis_config_with-IsRedisConfig "200ms" env cfg e

-- The settings of the limiter, which cannot fail to load.
pub load_config-limiter :
    (env : Environment) (config : Config)
    → load_config env ≡ ok config
    → (config.token_bucket_policies ≡ token_bucket_policies)
      × (config.redis_limiter_cfg ≡ record {
        key_prefix = "";
        event_stream = get_env env "RATE_LIMIT_EVENT_STREAM" "rate_limit:approved_requests";
        max_event_backlog = get_env_as_int env "RATE_LIMIT_EVENT_MAX_BACKLOG" (pos 100_000);
      })
unfolding load_config
load_config-limiter env config e =
    let (_, _, e1) = and_then-ok (load_redis_config env) _ config e in
    let (_, _, e2) = and_then-ok (load_circuit_breaker_config env) _ config e1 in
    let (_, _, e3) =
      and_then-ok (positive_duration env "ANALYTICS_QUERY_TIMEOUT" "1s") _ config e2 in
    let same = sym (ok-injective e3) in
    (
      ap (λ (c : Config). c.token_bucket_policies) same,
      ap (λ (c : Config). c.redis_limiter_cfg) same,
    )

abbrev pub IsAccepted : Config → Type 0
IsAccepted config =
    (new_redis_token_bucket_rate_limiter true config.token_bucket_policies config.redis_limiter_cfg
      ≡ ok (with_defaults config.token_bucket_policies config.redis_limiter_cfg))
    × (new_circuit_breaker_limiter true config.circuit_breaker_cfg
        ≡ ok (closed_breaker config.circuit_breaker_cfg))
    × IsRedisConfig config.redis_cfg

-- Whatever the environment holds, if the API's configuration loads and its backlog limit is not
-- negative, then the constructors of the Redis limiter and of the circuit breaker accept it, and its
-- Redis settings name a single server or a master with sentinels.
pub load_config-accepted :
    (env : Environment) (config : Config)
    → load_config env ≡ ok config
    → pos 0 ≤ℤ config.redis_limiter_cfg.max_event_backlog
    → (new_redis_token_bucket_rate_limiter true config.token_bucket_policies
          config.redis_limiter_cfg
        ≡ ok (with_defaults config.token_bucket_policies config.redis_limiter_cfg))
      × (new_circuit_breaker_limiter true config.circuit_breaker_cfg
          ≡ ok (closed_breaker config.circuit_breaker_cfg))
      × IsRedisConfig config.redis_cfg
unfolding load_config
load_config-accepted env config e nonneg =
    let (redis, r, e1) = and_then-ok (load_redis_config env) _ config e in
    let (breaker, b, e2) = and_then-ok (load_circuit_breaker_config env) _ config e1 in
    let (timeout, t, e3) =
      and_then-ok (positive_duration env "ANALYTICS_QUERY_TIMEOUT" "1s") _ config e2 in
    let same = ok-injective e3 in
    subst IsAccepted same (
      limiter_accepted _ (
          subst (λ (c : Config). pos 0 ≤ℤ c.redis_limiter_cfg.max_event_backlog) (sym same) nonneg),
      load_circuit_breaker_config-accepted env breaker b,
      load_redis_config-IsRedisConfig env redis r,
    )
