-- ===== src/Config/Agreement.antt =====
-- The settings that the API and the worker share, in one environment.
mod Full
mod Tests
use rate_limiter_as_a_servic.Limiter.{ok, ok-injective, Result, Error, plain}
use rate_limiter_as_a_servic.Base.{
  ℤ, pos, String, ◌≡◌, false, Option-cases, inl, inr, ap, sym, ◌∙◌, refl, arith, leb_ℤ, [],
}
use rate_limiter_as_a_servic.RedisBucket.Limiter.{with_defaults, RedisTokenBucketConfig}
use rate_limiter_as_a_servic.Config.{
  Environment, positive, positive_int, get_env, get_env_as_int, plain, err,
}
use rate_limiter_as_a_servic.Config.Accepted.{positive_int_positive}
use rate_limiter_as_a_servic.Config.Api
use rate_limiter_as_a_servic.Config.Api.Loaded.{load_config-limiter}
use rate_limiter_as_a_servic.Worker
use rate_limiter_as_a_servic.Worker.Config.{Process}
use rate_limiter_as_a_servic.Worker.Config.Loaded.{load_config-IsLoadOf}
use text.Mathlib.Text.{◌==◌ as str_eq}
use Prim.Native.String.{◌++◌ as append}

positive-value : (wrong : Error) (r : Result ℤ) (n : ℤ) → positive wrong r ≡ ok n → r ≡ ok n
positive-value wrong (err e) n h = cc
positive-value wrong (ok m) n h = ground arith

-- A number that both ways of reading a setting accept is the same, if the fallbacks are.
get_env_as_int-positive_int :
    (env : Environment) (name fallback : String) (m n : ℤ)
    → env.atoi fallback ≡ ok m
    → positive_int env name fallback ≡ ok n
    → get_env_as_int env name m ≡ n
unfolding positive_int get_env_as_int get_env
get_env_as_int-positive_int env name fallback m n parses h =
    let value =
      positive-value (plain (append name " must be a positive integer"))
        (env.atoi (get_env env name fallback)) n h in
    elim (Option-cases (env.lookup_env name)) [
      | inl unset ↦
          let fallen : get_env env name fallback ≡ fallback = rw (unset, get_env) refl in
          let read : env.atoi fallback ≡ ok n = ap env.atoi (sym fallen) ∙ value in
          rw (unset, get_env_as_int) (ok-injective (sym parses ∙ read))
      | inr (text, set) ↦
          let found : get_env env name fallback ≡ text = rw (set, get_env) refl in
          let read : env.atoi text ≡ ok n = ap env.atoi (sym found) ∙ value in
          rw (set, get_env_as_int) (rw read refl)
    ]

default_kept :
    (n : ℤ) (cfg : RedisTokenBucketConfig)
    → cfg.max_event_backlog ≡ n
    → leb_ℤ n (pos 0) ≡ false
    → (with_defaults [] cfg).max_backlog ≡ n
default_kept n cfg same positive = ground arith

-- The API stops approving at the length of the stream that the worker takes for full, and appends to
-- the stream that the worker reads: let both configurations load from one environment, with `Atoi`
-- reading `100000` as that number and the worker's stream not empty. Then the limiter of the API has
-- the worker's stream and the worker's backlog limit.
pub programs_agree :
    (env : Environment) (process : Process) (api : Api.Config) (worker : Worker.Config.Config)
    → Api.load_config env ≡ ok api
    → Worker.Config.load_config env process ≡ ok worker
    → env.atoi "100000" ≡ ok (pos 100_000)
    → str_eq worker.events.stream "" ≡ false
    → let limiter = with_defaults api.token_bucket_policies api.redis_limiter_cfg in
      (limiter.event_stream ≡ worker.events.stream) × (limiter.max_backlog ≡ worker.max_backlog)
programs_agree env process api worker api_loads worker_loads parses named =
    let (_, settings) = load_config-limiter env api api_loads in
    let it = load_config-IsLoadOf env process worker worker_loads in
    let stream : api.redis_limiter_cfg.event_stream ≡ worker.events.stream =
      ap (λ (c : RedisTokenBucketConfig). c.event_stream) settings ∙ sym it.stream in
    let backlog : api.redis_limiter_cfg.max_event_backlog ≡ worker.max_backlog =
      ap (λ (c : RedisTokenBucketConfig). c.max_event_backlog) settings
      ∙ get_env_as_int-positive_int env "RATE_LIMIT_EVENT_MAX_BACKLOG" "100000" (pos 100_000)
          worker.max_backlog parses it.max_backlog in
    (
      rw stream (rw named refl),
      default_kept worker.max_backlog api.redis_limiter_cfg backlog
          (positive_int_positive env _ _ worker.max_backlog it.max_backlog),
    )
