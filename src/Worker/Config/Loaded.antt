-- ===== src/Worker/Config/Loaded.antt =====
-- What the worker's configuration satisfies once it is loaded.
use Prim.Native.Char.{Char}
use Prim.Native.String.{String, ◌++◌ as append}
use Prim.Native.String.append.{nil as append_nil, cons as append_cons}
use rate_limiter_as_a_servic.Limiter.{Result, ok, err, and_then-ok, ok-injective}
use rate_limiter_as_a_servic.Base.{
  ℤ, pos, ◌≡◌, true, false, Bool, Bool-cases, inl, inr, ap, ◌∙◌, subst, refl, arith, leb_ℤ, ◌≤ℤ◌,
  ◌<ℤ◌,
}
use text.Mathlib.Text.{◌==◌ as str_eq}
use text.Mathlib.TextEquality.{eq_iff}
use rate_limiter_as_a_servic.Config.{Environment, get_env, positive_duration, positive_int}
use rate_limiter_as_a_servic.Config.Accepted.{positive_duration_positive, positive_int_positive}
use rate_limiter_as_a_servic.Config.Redis.Sentinels.{positive_of}
use rate_limiter_as_a_servic.Events.Processor
use rate_limiter_as_a_servic.Events.Processor.{new_processor}
use rate_limiter_as_a_servic.Worker.Config.{
  Config, Process, load_config, load_redis_config, percentage, consumer_of, host_consumer,
  database_url_of,
}

abbrev is_empty : String → Bool
is_empty String.[] = true
is_empty (String.◌∷◌ c s) = false

filled : (c : Char) (s : String) → str_eq (String.◌∷◌ c s) "" ≡ false
filled c s = elim (Bool-cases (str_eq (String.◌∷◌ c s) "")) [
  | inl same ↦ let wrong : false ≡ true = ap is_empty ((eq_iff (String.◌∷◌ c s) "").0 same) in cc
  | inr differ ↦ differ
]

-- A name with a dash in it.
dashed : (h p : String) → str_eq (append h (append "-" p)) "" ≡ false
dashed String.[] p =
    ap (λ t. str_eq t "") (append_nil _ ∙ append_cons "-" String.[] p) ∙ filled "-" _
dashed (String.◌∷◌ c h) p = ap (λ t. str_eq t "") (append_cons c h _) ∙ filled c _

host_consumer-filled :
    (hostname : Result String) (pid consumer : String)
    → host_consumer hostname pid ≡ ok consumer
    → str_eq consumer "" ≡ false
host_consumer-filled (err e) pid consumer h = cc
host_consumer-filled (ok name) pid consumer h =
    subst (λ c. str_eq c "" ≡ false) (ok-injective h) (dashed name pid)

consumer_of-filled :
    (process : Process) (given consumer : String)
    → consumer_of process given ≡ ok consumer
    → str_eq consumer "" ≡ false
unfolding consumer_of
consumer_of-filled process given consumer e = elim (Bool-cases (str_eq given "")) [
  | inl empty ↦ host_consumer-filled process.hostname process.pid consumer (rw empty at e)
  | inr named ↦ subst (λ c. str_eq c "" ≡ false) (ok-injective (rw named at e)) named
]

percentage-range :
    (r : Result ℤ) (level : ℤ) → percentage r ≡ ok level → (r ≡ ok level) × (level ≤ℤ pos 100)
percentage-range (err e) level h = cc
percentage-range (ok n) level h = ground arith

-- What the worker's loops rely on.
abbrev pub IsWorkerConfig : Config → Type 0
IsWorkerConfig c =
    (pos 0 <ℤ c.max_backlog)
    × (pos 0 <ℤ c.warning_level)
    × (c.warning_level ≤ℤ pos 100)
    × (pos 0 <ℤ c.claim_every)
    × (pos 0 <ℤ c.status_every)
    × (pos 0 <ℤ c.retry_backoff)
    × (str_eq c.database_url "" ≡ false)

database_url_of-filled :
    (url found : String) → database_url_of url ≡ ok found → str_eq found "" ≡ false
unfolding database_url_of
database_url_of-filled url found e = elim (Bool-cases (str_eq url "")) [
  | inl empty ↦ let wrong = rw empty at e in cc
  | inr given ↦ subst (λ u. str_eq u "" ≡ false) (ok-injective (rw given at e)) given
]

processor_accepts :
    (c : Processor.Config)
    → str_eq c.stream "" ≡ false
    → str_eq c.group "" ≡ false
    → str_eq c.consumer "" ≡ false
    → leb_ℤ c.batch_size (pos 0) ≡ false
    → leb_ℤ c.block (pos 0) ≡ false
    → leb_ℤ c.claim_idle (pos 0) ≡ false
    → new_processor true true c ≡ ok c
unfolding new_processor
processor_accepts c stream group consumer batch block idle =
    rw (stream, group, consumer, batch, block, idle) refl

-- Where each setting comes from.
pub record IsLoadOf (env : Environment) (process : Process) (c : Config) : Type 0 where
  pub redis : load_redis_config env ≡ ok c.redis
  pub batch_size : positive_int env "APPROVAL_WORKER_BATCH_SIZE" "100" ≡ ok c.events.batch_size
  pub block : positive_duration env "APPROVAL_WORKER_BLOCK" "1s" ≡ ok c.events.block
  pub claim_idle : positive_duration env "APPROVAL_WORKER_CLAIM_IDLE" "30s" ≡ ok c.events.claim_idle
  pub claim_every : positive_duration env "APPROVAL_WORKER_CLAIM_INTERVAL" "10s" ≡ ok c.claim_every
  pub retry_backoff :
      positive_duration env "APPROVAL_WORKER_RETRY_BACKOFF" "1s" ≡ ok c.retry_backoff
  pub status_every :
      positive_duration env "APPROVAL_WORKER_STATUS_INTERVAL" "5s" ≡ ok c.status_every
  pub max_backlog : positive_int env "RATE_LIMIT_EVENT_MAX_BACKLOG" "100000" ≡ ok c.max_backlog
  pub warning_level :
      percentage (positive_int env "APPROVAL_WORKER_BACKLOG_WARNING_PERCENT" "80")
      ≡ ok c.warning_level
  pub consumer :
      consumer_of process (env.trim_space (get_env env "APPROVAL_WORKER_CONSUMER" ""))
      ≡ ok c.events.consumer
  pub database_url :
      database_url_of (env.trim_space (get_env env "DATABASE_URL" "")) ≡ ok c.database_url
  pub stream :
      c.events.stream ≡ get_env env "RATE_LIMIT_EVENT_STREAM" "rate_limit:approved_requests"

pub load_config-IsLoadOf :
    (env : Environment) (process : Process) (c : Config)
    → load_config env process ≡ ok c
    → IsLoadOf env process c
unfolding load_config
load_config-IsLoadOf env process c e =
    let (_, redis, e1) = and_then-ok (load_redis_config env) _ c e in
    let (_, batch_size, e2) =
      and_then-ok (positive_int env "APPROVAL_WORKER_BATCH_SIZE" "100") _ c e1 in
    let (_, block, e3) = and_then-ok (positive_duration env "APPROVAL_WORKER_BLOCK" "1s") _ c e2 in
    let (_, claim_idle, e4) =
      and_then-ok (positive_duration env "APPROVAL_WORKER_CLAIM_IDLE" "30s") _ c e3 in
    let (_, claim_every, e5) =
      and_then-ok (positive_duration env "APPROVAL_WORKER_CLAIM_INTERVAL" "10s") _ c e4 in
    let (_, retry_backoff, e6) =
      and_then-ok (positive_duration env "APPROVAL_WORKER_RETRY_BACKOFF" "1s") _ c e5 in
    let (_, status_every, e7) =
      and_then-ok (positive_duration env "APPROVAL_WORKER_STATUS_INTERVAL" "5s") _ c e6 in
    let (_, max_backlog, e8) =
      and_then-ok (positive_int env "RATE_LIMIT_EVENT_MAX_BACKLOG" "100000") _ c e7 in
    let (_, warning_level, e9) =
      and_then-ok (percentage (positive_int env "APPROVAL_WORKER_BACKLOG_WARNING_PERCENT" "80")) _ c
        e8 in
    let (_, consumer, e10) =
      and_then-ok (consumer_of process (env.trim_space (get_env env "APPROVAL_WORKER_CONSUMER" "")))
        _ c e9 in
    let (_, database_url, e11) =
      and_then-ok (database_url_of (env.trim_space (get_env env "DATABASE_URL" ""))) _ c e10 in
    subst (IsLoadOf env process) (ok-injective e11) (record {
      redis = redis;
      batch_size = batch_size;
      block = block;
      claim_idle = claim_idle;
      claim_every = claim_every;
      retry_backoff = retry_backoff;
      status_every = status_every;
      max_backlog = max_backlog;
      warning_level = warning_level;
      consumer = consumer;
      database_url = database_url;
      stream = refl;
    })

-- Whatever the environment holds, if the worker's configuration loads and neither its stream nor its
-- group is empty, then the processor's constructor accepts it, and its backlog limit and its
-- intervals are positive, its warning level is between 1 and 100, and its database URL is not empty.
pub load_config-IsWorkerConfig :
    (env : Environment) (process : Process) (c : Config)
    → load_config env process ≡ ok c
    → str_eq c.events.stream "" ≡ false
    → str_eq c.events.group "" ≡ false
    → (new_processor true true c.events ≡ ok c.events) × IsWorkerConfig c
load_config-IsWorkerConfig env process c e has_stream has_group =
    let it = load_config-IsLoadOf env process c e in
    let (read, top) = percentage-range _ c.warning_level it.warning_level in
    (
      processor_accepts c.events has_stream has_group
          (consumer_of-filled process _ c.events.consumer it.consumer)
          (positive_int_positive env _ _ c.events.batch_size it.batch_size)
          (positive_duration_positive env _ _ c.events.block it.block)
          (positive_duration_positive env _ _ c.events.claim_idle it.claim_idle),
      (
        positive_of c.max_backlog (positive_int_positive env _ _ c.max_backlog it.max_backlog),
        positive_of c.warning_level (positive_int_positive env _ _ c.warning_level read),
        top,
        positive_of c.claim_every (positive_duration_positive env _ _ c.claim_every it.claim_every),
        positive_of c.status_every
            (positive_duration_positive env _ _ c.status_every it.status_every),
        positive_of c.retry_backoff
            (positive_duration_positive env _ _ c.retry_backoff it.retry_backoff),
        database_url_of-filled _ c.database_url it.database_url,
      ),
    )
