-- ===== src/Config/Redis/Client.antt =====
-- `newRedisClient` of cmd/api/redis.go and of cmd/worker/redis.go, which are alike, and what a client
-- of a configuration that loads is.
use rate_limiter_as_a_servic.Base.{
  ◌≡◌, ◌≢◌, [], ◌⊎◌, ◌<ℤ◌, negsuc, true, false, inl, inr, refl, pos, if◌then◌else◌, not,
}
use rate_limiter_as_a_servic.Store
use rate_limiter_as_a_servic.Store.{RedisOptions, RedisClient, single_server, failover}
use rate_limiter_as_a_servic.Config.Redis.{RedisConfig}
use rate_limiter_as_a_servic.Config.Redis.Sentinels.{IsRedisConfig, AllFilled}
use text.Mathlib.Text.{◌==◌ as str_eq}

abbrev pub options_of : RedisConfig → RedisOptions
options_of cfg = record {
  password = cfg.password;
  db = cfg.db;
  dial_timeout = cfg.dial_timeout;
  read_timeout = cfg.read_timeout;
  write_timeout = cfg.write_timeout;
}

unfoldable pub new_redis_client : RedisConfig → RedisClient
new_redis_client cfg =
    if not (str_eq cfg.master_name "")
    then Store.new_redis_failover_client cfg.master_name cfg.sentinel_addrs (options_of cfg)
    else Store.new_redis_client cfg.addr (options_of cfg)

-- A client that sends no command twice, with positive timeouts, for the server of the configuration or
-- else for a master by way of its sentinels, of which there is one at least and whose addresses are not
-- empty.
abbrev pub IsClientOf : RedisConfig → RedisClient → Type 0
IsClientOf cfg client =
    (client.max_retries ≡ negsuc 0)
    × (pos 0 <ℤ client.options.dial_timeout)
    × (pos 0 <ℤ client.options.read_timeout)
    × (pos 0 <ℤ client.options.write_timeout)
    × (((str_eq cfg.master_name "" ≡ true) × (client.address ≡ single_server cfg.addr))
        ⊎ ((str_eq cfg.master_name "" ≡ false)
            × (client.address ≡ failover cfg.master_name cfg.sentinel_addrs)
            × (cfg.sentinel_addrs ≢ [])
            × AllFilled cfg.sentinel_addrs))

pub new_redis_client-IsClientOf :
    (cfg : RedisConfig) → IsRedisConfig cfg → IsClientOf cfg (new_redis_client cfg)
unfolding new_redis_client
new_redis_client-IsClientOf cfg (inl (single, _), dial, reads, writes) =
    rw single (refl, dial, reads, writes, inl (refl, refl))
new_redis_client-IsClientOf cfg (inr (named, some_addr, filled), dial, reads, writes) =
    rw named (refl, dial, reads, writes, inr (refl, refl, some_addr, filled))
