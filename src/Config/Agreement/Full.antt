-- ===== src/Config/Agreement/Full.antt =====
-- The monitor of the worker and the backlog test of the script.
use rate_limiter_as_a_servic.Limiter.{Error, Decision, Key, ok}
use rate_limiter_as_a_servic.Base.{
  ℤ, pos, String, Option, ◌≡◌, ◌≢◌, true, false, ap, sym, ◌∙◌, leb_ℤ, arith,
}
use rate_limiter_as_a_servic.Floats.{Float64}
use rate_limiter_as_a_servic.RedisBucket.Server.{Redis, LuaText}
use rate_limiter_as_a_servic.RedisBucket.Limiter.{
  RedisTokenBucketRateLimiter, Delivery, allow, arguments, with_defaults,
}
use rate_limiter_as_a_servic.RedisBucket.Limiter.Approvals.{allow_granted}
use rate_limiter_as_a_servic.Worker
use rate_limiter_as_a_servic.Worker.Config.{Process}
use rate_limiter_as_a_servic.Worker.Monitor.{Backlog, backlog_state, backlog_full}
use rate_limiter_as_a_servic.Config.{Environment}
use rate_limiter_as_a_servic.Config.Api
use rate_limiter_as_a_servic.Config.Agreement.{programs_agree}
use text.Mathlib.Text.{◌==◌ as str_eq}

-- What the monitor reads of the configuration.
abbrev pub backlog_of : Worker.Config.Config → Backlog
backlog_of worker = record {
  max_backlog = worker.max_backlog;
  warning_level = worker.warning_level;
}

not_full :
    (config : Backlog) (length : ℤ)
    → leb_ℤ config.max_backlog length ≡ false
    → backlog_state config length ≢ backlog_full
unfolding backlog_state
not_full config length room full = ground arith

module _ (N : Float64) (T : LuaText N) (S : Redis) (encode : String → String) where
  room_of :
      (l : RedisTokenBucketRateLimiter) (r : S.R) (d : Delivery) (ctx_err : Option Error)
      (key : Key) (cost : ℤ) (dec : Decision)
      → (allow N T S encode l r d ctx_err key cost).0 ≡ ok dec
      → dec.allowed ≡ true
      → leb_ℤ l.max_backlog (S.xlen r l.event_stream) ≡ false
  unfolding arguments
  room_of l r d ctx_err key cost dec answer granted =
      let (p, _, _, _, (_, room, _, _)) =
        allow_granted N T S encode l r d ctx_err key cost dec answer granted in
      room

  -- Let the configurations of the API and of the worker load from one environment, with `Atoi`
  -- reading `100000` as that number and the worker's stream not empty. Then the API approves no
  -- request while the length of the stream is one that the worker's monitor calls full.
  pub approved_not_full :
      (env : Environment) (process : Process) (api : Api.Config) (worker : Worker.Config.Config)
      (r : S.R) (d : Delivery) (ctx_err : Option Error) (key : Key) (cost : ℤ) (dec : Decision)
      → Api.load_config env ≡ ok api
      → Worker.Config.load_config env process ≡ ok worker
      → env.atoi "100000" ≡ ok (pos 100_000)
      → str_eq worker.events.stream "" ≡ false
      → (allow N T S encode
          (with_defaults api.token_bucket_policies api.redis_limiter_cfg)
          r
          d
          ctx_err
          key
          cost).0
        ≡ ok dec
      → dec.allowed ≡ true
      → backlog_state (backlog_of worker) (S.xlen r worker.events.stream) ≢ backlog_full
  approved_not_full env process api worker r d ctx_err key cost dec api_loads worker_loads parses
        named answer granted =
      let l = with_defaults api.token_bucket_policies api.redis_limiter_cfg in
      let (stream, backlog) =
        programs_agree env process api worker api_loads worker_loads parses named in
      let room = room_of l r d ctx_err key cost dec answer granted in
      not_full (backlog_of worker) (S.xlen r worker.events.stream) (
        sym (ap (λ s. leb_ℤ worker.max_backlog (S.xlen r s)) stream)
        ∙ sym (ap (λ m. leb_ℤ m (S.xlen r l.event_stream)) backlog)
        ∙ room)
