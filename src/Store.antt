-- ===== src/Store.antt =====
-- internal/store: the clients of Redis and of PostgreSQL. What go-redis is given for a client is a
-- value; `pgxpool.New` and the pool's `Ping` are parameters. A pool that is closed is dropped.
use rate_limiter_as_a_servic.Clock.{Duration}
use rate_limiter_as_a_servic.Limiter.{Result, Error, and_then, ok, err}
use rate_limiter_as_a_servic.Events.Processor.{because}
use rate_limiter_as_a_servic.Base.{ℤ, negsuc, String, List, Option, none, some}

pub record RedisOptions : Type 0 where
  pub password : String
  pub db : ℤ
  pub dial_timeout : Duration
  pub read_timeout : Duration
  pub write_timeout : Duration

-- Where a client finds its server: at an address, or by the sentinels of a master.
pub data RedisAddress : Type 0 where
  single_server : (addr : String) → RedisAddress
  failover : (master_name : String) (sentinel_addrs : List String) → RedisAddress

pub record RedisClient : Type 0 where
  pub address : RedisAddress
  pub options : RedisOptions
  pub max_retries : ℤ

abbrev pub new_redis_client : String → RedisOptions → RedisClient
new_redis_client addr options = record {
  address = single_server addr;
  options = options;
  max_retries = negsuc 0;
}

abbrev pub new_redis_failover_client : String → List String → RedisOptions → RedisClient
new_redis_failover_client master_name sentinel_addrs options = record {
  address = failover master_name sentinel_addrs;
  options = options;
  max_retries = negsuc 0;
}

pub record Pools : Type 1 where
  pub Pool : Type 0
  pub pgxpool_new : String → Result Pool
  pub ping : Pool → Option Error

abbrev pub open_postgres_pool : (P : Pools) → String → Result P.Pool
open_postgres_pool P database_url = P.pgxpool_new database_url

-- `logger.Fatalw(text, "error", err)` in a `main`, if there is an error.
abbrev pub or_fatal {ℓ} : {A : Type ℓ} → String → Result A → Result A
or_fatal text (ok a) = ok a
or_fatal text (err e) = err (because text e)

abbrev pub pinged {ℓ} : {A : Type ℓ} → A → Option Error → Result A
pinged a none = ok a
pinged a (some e) = err e

unfoldable pub new_postgres_pool : (P : Pools) → String → Result P.Pool
new_postgres_pool P database_url =
    and_then (open_postgres_pool P database_url) (λ pool. pinged pool (P.ping pool))
