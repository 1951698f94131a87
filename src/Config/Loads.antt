-- ===== src/Config/Loads.antt =====
-- The configurations of both programs at a concrete environment: a master with two sentinels.
use rate_limiter_as_a_servic.Config.Api
use rate_limiter_as_a_servic.Config.{load_circuit_breaker_config}
use rate_limiter_as_a_servic.RedisBucket.Limiter.{RedisTokenBucketRateLimiter, with_defaults}
use rate_limiter_as_a_servic.Worker.Start.{server_stopped}
use rate_limiter_as_a_servic.Limiter.{sentinel, server_closed}
use rate_limiter_as_a_servic.Limiter.{errors_is}
use rate_limiter_as_a_servic.Base.{String, false, List, ◌≢◌, Bool-cases, inl, inr}
use rate_limiter_as_a_servic.Store.{Pools}
use rate_limiter_as_a_servic.Events.Status.{Texts, ensure_group, is_busy_group}
use rate_limiter_as_a_servic.Config.Redis.Client.{new_redis_client}
use rate_limiter_as_a_servic.Worker.Start.{Application, prepare, main, context_done}
use rate_limiter_as_a_servic.Worker.Start.Starts.{worker_starts}
use rate_limiter_as_a_servic.Limiter.{ok, err, plain}
use rate_limiter_as_a_servic.Base.{pos, if◌then◌else◌, some, ◌≡◌, none, refl, [], ◌∷◌}
use text.Mathlib.Text.{◌==◌ as str_eq}
use rate_limiter_as_a_servic.Config.{
  Environment, positive_int, positive_duration, get_env, get_env_as_int,
}
use rate_limiter_as_a_servic.Config.Redis.{
  RedisConfig, load_redis_config_with, with_sentinels, sentinel_addrs_of,
}
use rate_limiter_as_a_servic.Worker
use rate_limiter_as_a_servic.Worker.Config.{Process}
use rate_limiter_as_a_servic.Worker.Config.Loaded.{IsWorkerConfig}

abbrev pub two_addresses : List String
two_addresses = "a:1" ∷ "b:2" ∷ []

abbrev pub pieces : String → List String
pieces text = if str_eq text "a:1,b:2" then two_addresses else text ∷ []

single_piece : (text : String) → text ∷ [] ≢ []
single_piece text e = cc

two_pieces : two_addresses ≢ []
two_pieces e = cc

pub some_piece : (text separator : String) → str_eq separator "" ≡ false → pieces text ≢ []
some_piece text separator h e = elim (Bool-cases (str_eq text "a:1,b:2")) [
  | inl two ↦ two_pieces (rw two at e)
  | inr one ↦ single_piece text (rw one at e)
]

abbrev pub env : Environment
env = record {
  lookup_env = λ key.
      if str_eq key "REDIS_MASTER_NAME"
      then some "main"
      else if str_eq key "REDIS_SENTINEL_ADDRS"
      then some "a:1,b:2"
      else if str_eq key "DATABASE_URL"
      then some "postgres://db"
      else none;
  atoi = λ text.
      if str_eq text "80"
      then ok (pos 80)
      else if str_eq text "100000"
      then ok (pos 100_000)
      else ok (pos 100);
  parse_bool = λ text. err (plain "invalid syntax");
  parse_duration = λ text. ok (pos 1_000_000_000);
  trim_space = λ text. text;
  split = λ text separator. pieces text;
  split_some = some_piece;
}

abbrev pub this_process : Process
this_process = record { hostname = ok "worker-host"; pid = "7" }

abbrev pub redis : RedisConfig
redis = record {
  addr = "localhost:6379";
  master_name = "main";
  sentinel_addrs = "a:1" ∷ "b:2" ∷ [];
  password = "";
  db = pos 0;
  dial_timeout = pos 1_000_000_000;
  read_timeout = pos 1_000_000_000;
  write_timeout = pos 1_000_000_000;
}

redis_loads : load_redis_config_with "3s" env ≡ ok redis
unfolding load_redis_config_with with_sentinels sentinel_addrs_of get_env get_env_as_int
    positive_duration
redis_loads = refl

abbrev pub api : Api.Config
api = record {
  addr = ":8080";
  env = "development";
  database_url = "postgres://db";
  analytics_timeout = pos 1_000_000_000;
  redis_cfg = redis;
  circuit_breaker_cfg = record {
    failure_threshold = pos 100;
    open_timeout = pos 1_000_000_000;
    decision_timeout = pos 1_000_000_000;
  };
  redis_limiter_cfg = record {
    key_prefix = "";
    event_stream = "rate_limit:approved_requests";
    max_event_backlog = pos 100_000;
  };
  token_bucket_policies = Api.token_bucket_policies;
}

abbrev pub worker : Worker.Config.Config
worker = record {
  addr = ":8081";
  database_url = "postgres://db";
  redis = redis;
  events = record {
    stream = "rate_limit:approved_requests";
    group = "approval-history";
    consumer = "worker-host-7";
    batch_size = pos 100;
    block = pos 1_000_000_000;
    claim_idle = pos 1_000_000_000;
  };
  max_backlog = pos 100_000;
  claim_every = pos 1_000_000_000;
  status_every = pos 1_000_000_000;
  warning_level = pos 80;
  retry_backoff = pos 1_000_000_000;
}

-- A pool is the URL that it was opened with; both services answer.
abbrev reachable : Pools
reachable = record { Pool = String; pgxpool_new = λ url. ok url; ping = λ pool. none }

-- XGROUP CREATE finds the group.
abbrev texts : Texts
texts = record {
  has_prefix = λ text prefix. str_eq text "BUSYGROUP";
  cut = λ text separator. (text, "", false);
  quote = λ text. text;
  parse_int = λ text. err (plain "invalid syntax");
}

abbrev prepared : Application reachable
prepared = record {
  config = worker;
  redis_client = new_redis_client redis;
  postgres_pool = "postgres://db";
  processor = worker.events;
}

worker_starts_example :
    (prepare reachable env this_process (λ client. none) ≡ ok prepared)
    × IsWorkerConfig worker
    × (main reachable env this_process
          (λ client. none)
          texts
          (some (plain "BUSYGROUP"))
          (context_done none (server_stopped (sentinel server_closed)))
        ≡ ok prepared)
    × (main reachable env this_process
          (λ client. none)
          texts
          (some (plain "BUSYGROUP"))
          (context_done none none)
        ≡ ok prepared)
unfolding Worker.Config.load_config Worker.Config.load_redis_config load_redis_config_with
    with_sentinels sentinel_addrs_of get_env get_env_as_int positive_duration positive_int
    Worker.Config.consumer_of Worker.Config.database_url_of ensure_group is_busy_group errors_is
worker_starts_example =
    worker_starts reachable env this_process (λ client. none) worker "postgres://db" refl refl refl
      refl refl refl texts (some (plain "BUSYGROUP")) (sentinel server_closed) refl refl

abbrev pub limiter : RedisTokenBucketRateLimiter
limiter = with_defaults api.token_bucket_policies api.redis_limiter_cfg

pub api_loads : Api.load_config env ≡ ok api
unfolding Api.load_config Api.load_redis_config load_redis_config_with with_sentinels
    sentinel_addrs_of get_env get_env_as_int positive_duration positive_int
    load_circuit_breaker_config
api_loads = refl

pub worker_loads : Worker.Config.load_config env this_process ≡ ok worker
unfolding Worker.Config.load_config Worker.Config.load_redis_config load_redis_config_with
    with_sentinels sentinel_addrs_of get_env get_env_as_int positive_duration positive_int
    Worker.Config.consumer_of Worker.Config.database_url_of
worker_loads = refl
