-- ===== src/Worker/Config.antt =====
-- cmd/worker/config.go. The name of the host and the number of the process are arguments.
pub mod Loaded
use rate_limiter_as_a_servic.Clock.{Duration}
use rate_limiter_as_a_servic.Limiter.{
  Result, ok, err, plain, and_then, ◌>>=◌, wrapped, error_text, Error,
}
use rate_limiter_as_a_servic.Base.{ℤ, pos, String, if◌then◌else◌, ltb_ℤ}
use rate_limiter_as_a_servic.Config.{Environment, get_env, positive_duration, positive_int}
use rate_limiter_as_a_servic.Config.Redis.{RedisConfig, load_redis_config_with}
use rate_limiter_as_a_servic.Events.Processor
use rate_limiter_as_a_servic.Events.Processor.{because}
use text.Mathlib.Text.{◌==◌ as str_eq}
use Prim.Native.String.{◌++◌ as append}

-- `pid` is the decimal text of `os.Getpid()`.
pub record Process : Type 0 where
  pub hostname : Result String
  pub pid : String

pub record Config : Type 0 where
  pub addr : String
  pub database_url : String
  pub redis : RedisConfig
  pub events : Processor.Config
  pub max_backlog : ℤ
  pub claim_every : Duration
  pub status_every : Duration
  pub warning_level : ℤ
  pub retry_backoff : Duration

unfoldable pub load_redis_config : Environment → Result RedisConfig
load_redis_config = load_redis_config_with "3s"

-- The warning level, or the error of a number that is no percentage.
abbrev pub percentage : Result ℤ → Result ℤ
percentage (err e) = err (plain "APPROVAL_WORKER_BACKLOG_WARNING_PERCENT must be between 1 and 100")
percentage (ok level) =
    if ltb_ℤ (pos 100) level
    then err (plain "APPROVAL_WORKER_BACKLOG_WARNING_PERCENT must be between 1 and 100")
    else ok level

-- The name of a consumer that the environment does not name.
abbrev pub host_consumer : Result String → String → Result String
host_consumer (err e) pid = err (because "read hostname for worker identity" e)
host_consumer (ok hostname) pid = ok (append hostname (append "-" pid))

-- The consumer's name, from what the environment holds.
unfoldable pub consumer_of : Process → String → Result String
consumer_of process consumer =
    if str_eq consumer "" then host_consumer process.hostname process.pid else ok consumer

unfoldable pub database_url_of : String → Result String
database_url_of database_url =
    if str_eq database_url "" then err (plain "DATABASE_URL is required") else ok database_url

unfoldable pub load_config : Environment → Process → Result Config
load_config env process = do
  redis_cfg ← load_redis_config env
  batch_size ← positive_int env "APPROVAL_WORKER_BATCH_SIZE" "100"
  block ← positive_duration env "APPROVAL_WORKER_BLOCK" "1s"
  claim_idle ← positive_duration env "APPROVAL_WORKER_CLAIM_IDLE" "30s"
  claim_every ← positive_duration env "APPROVAL_WORKER_CLAIM_INTERVAL" "10s"
  retry_backoff ← positive_duration env "APPROVAL_WORKER_RETRY_BACKOFF" "1s"
  status_every ← positive_duration env "APPROVAL_WORKER_STATUS_INTERVAL" "5s"
  max_backlog ← positive_int env "RATE_LIMIT_EVENT_MAX_BACKLOG" "100000"
  warning_level ← percentage (positive_int env "APPROVAL_WORKER_BACKLOG_WARNING_PERCENT" "80")
  consumer ← consumer_of process (env.trim_space (get_env env "APPROVAL_WORKER_CONSUMER" ""))
  database_url ← database_url_of (env.trim_space (get_env env "DATABASE_URL" ""))
  ok (record {
    addr = append ":" (get_env env "WORKER_PORT" "8081");
    database_url = database_url;
    redis = redis_cfg;
    events = record {
      stream = get_env env "RATE_LIMIT_EVENT_STREAM" "rate_limit:approved_requests";
      group = get_env env "APPROVAL_WORKER_GROUP" "approval-history";
      consumer = consumer;
      batch_size = batch_size;
      block = block;
      claim_idle = claim_idle;
    };
    max_backlog = max_backlog;
    claim_every = claim_every;
    status_every = status_every;
    warning_level = warning_level;
    retry_backoff = retry_backoff;
  })
