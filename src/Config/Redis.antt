-- ===== src/Config/Redis.antt =====
-- `loadRedisConfig` of cmd/api/config.go and cmd/worker/config.go, which differ in one default.
pub mod Sentinels
pub mod Client
use rate_limiter_as_a_servic.Clock.{Duration}
use rate_limiter_as_a_servic.Limiter.{Result, err, plain, ok, and_then, ◌>>=◌, ◌>>=◌}
use rate_limiter_as_a_servic.Base.{ℤ, pos, String, List, [], ◌∷◌, if◌then◌else◌, ◌&&◌, ◌||◌}
use text.Mathlib.Text.{◌==◌ as str_eq}
use rate_limiter_as_a_servic.Config.{Environment, get_env, get_env_as_int, positive_duration}

pub record RedisConfig : Type 0 where
  pub addr : String
  pub master_name : String
  pub sentinel_addrs : List String
  pub password : String
  pub db : ℤ
  pub dial_timeout : Duration
  pub read_timeout : Duration
  pub write_timeout : Duration

-- The loop over the addresses.
unfoldable pub sentinel_addrs_of : Environment → List String → Result (List String)
sentinel_addrs_of env [] = ok []
sentinel_addrs_of env (value ∷ values) =
    let rest = sentinel_addrs_of env values in
    let addr = env.trim_space value in
    if str_eq addr ""
    then err (plain "REDIS_SENTINEL_ADDRS cannot contain an empty address")
    else and_then rest (λ addrs. ok (addr ∷ addrs))

-- The end of `loadRedisConfig`: `cfg` has no addresses yet.
unfoldable pub with_sentinels : Environment → RedisConfig → String → Result RedisConfig
with_sentinels env cfg sentinel_value =
    if str_eq cfg.master_name "" && str_eq (env.trim_space sentinel_value) ""
    then ok cfg
    else if str_eq cfg.master_name "" || str_eq (env.trim_space sentinel_value) ""
    then err (plain "REDIS_MASTER_NAME and REDIS_SENTINEL_ADDRS must be configured together")
    else and_then (sentinel_addrs_of env (env.split sentinel_value ","))
        (λ addrs. ok (record cfg { sentinel_addrs = addrs }))

-- `read_fallback` is the read timeout where none is set.
unfoldable pub load_redis_config_with : String → Environment → Result RedisConfig
load_redis_config_with read_fallback env = do
  dial_timeout ← positive_duration env "REDIS_DIAL_TIMEOUT" "500ms"
  read_timeout ← positive_duration env "REDIS_READ_TIMEOUT" read_fallback
  write_timeout ← positive_duration env "REDIS_WRITE_TIMEOUT" "200ms"
  with_sentinels env
      (record {
        addr = get_env env "REDIS_ADDR" "localhost:6379";
        master_name = env.trim_space (get_env env "REDIS_MASTER_NAME" "");
        sentinel_addrs = [];
        password = get_env env "REDIS_PASSWORD" "";
        db = get_env_as_int env "REDIS_DB" (pos 0);
        dial_timeout = dial_timeout;
        read_timeout = read_timeout;
        write_timeout = write_timeout;
      })
      (get_env env "REDIS_SENTINEL_ADDRS" "")
