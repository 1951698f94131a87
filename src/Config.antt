-- ===== src/Config.antt =====
-- internal/env/env.go and cmd/api/config.go: settings from the environment. The environment, `Atoi`
-- and `ParseBool` of strconv, `time.ParseDuration`, and `TrimSpace` and `Split` of strings are
-- parameters.
pub mod Accepted
pub mod Redis
pub mod Api
mod Agreement
mod Loads
use rate_limiter_as_a_servic.Clock.{Duration}
use rate_limiter_as_a_servic.Limiter.{Error, Result, err, plain, ok, and_then, ◌>>=◌, ◌>>=◌}
use rate_limiter_as_a_servic.Base.{
  ℤ, pos, String, Bool, List, Option, [], false, ◌≡◌, ◌≢◌, some, none, if◌then◌else◌, leb_ℤ,
}
use text.Mathlib.Text.{◌==◌ as str_eq}
use Prim.Native.String.{◌++◌ as append, String}
use rate_limiter_as_a_servic.Breaker.{CircuitBreakerConfig}

pub record Environment : Type 0 where
  pub lookup_env : String → Option String
  pub atoi : String → Result ℤ
  pub parse_bool : String → Result Bool
  pub parse_duration : String → Result Duration
  pub trim_space : String → String
  pub split : String → String → List String
  -- `strings.Split` by a separator gives at least one piece, which may be the empty text.
  pub split_some :
      (text separator : String) → str_eq separator "" ≡ false → split text separator ≢ []

unfoldable pub get_env : Environment → String → String → String
get_env env key fallback = elim (env.lookup_env key) [ some value ↦ value | none ↦ fallback ]

unfoldable pub get_env_as_int : Environment → String → ℤ → ℤ
get_env_as_int env name fallback = elim (env.lookup_env name) [
  | none ↦ fallback
  | some value ↦ elim (env.atoi value) [ ok number ↦ number | err e ↦ fallback ]
]

unfoldable pub get_env_as_bool : Environment → String → Bool → Bool
get_env_as_bool env name fallback = elim (env.lookup_env name) [
  | none ↦ fallback
  | some value ↦ elim (env.parse_bool value) [ ok answer ↦ answer | err e ↦ fallback ]
]

-- The number or duration that was read, if it is positive.
abbrev pub positive : Error → Result ℤ → Result ℤ
positive wrong (err e) = err wrong
positive wrong (ok n) = if leb_ℤ n (pos 0) then err wrong else ok n

unfoldable pub positive_duration : Environment → String → String → Result Duration
positive_duration env name fallback =
    positive (plain (append name " must be a positive duration"))
      (env.parse_duration (get_env env name fallback))

unfoldable pub positive_int : Environment → String → String → Result ℤ
positive_int env name fallback =
    positive (plain (append name " must be a positive integer"))
      (env.atoi (get_env env name fallback))

unfoldable pub load_circuit_breaker_config : Environment → Result CircuitBreakerConfig
load_circuit_breaker_config env = do
  failure_threshold ← positive_int env "CIRCUIT_BREAKER_FAILURE_THRESHOLD" "3"
  open_timeout ← positive_duration env "CIRCUIT_BREAKER_OPEN_TIMEOUT" "5s"
  decision_timeout ← positive_duration env "RATE_LIMIT_DECISION_TIMEOUT" "300ms"
  ok (record {
    failure_threshold = failure_threshold;
    open_timeout = open_timeout;
    decision_timeout = decision_timeout;
  })
