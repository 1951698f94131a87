-- ===== src/Config/Redis/Sentinels.antt =====
-- What a Redis configuration that loads satisfies.
use rate_limiter_as_a_servic.Limiter.{ok, and_then-ok, ok-injective}
use rate_limiter_as_a_servic.Base.{
  ℤ, pos, String, List, ◌≡◌, true, false, [], ◌∷◌, ◌⊎◌, ◌≢◌, ◌<ℤ◌, Bool-cases, inl, inr, subst,
  refl, arith, leb_ℤ,
}
use text.Mathlib.Text.{◌==◌ as str_eq}
use rate_limiter_as_a_servic.Config.{Environment, positive_duration}
use rate_limiter_as_a_servic.Config.Accepted.{positive_duration_positive}
use rate_limiter_as_a_servic.Config.Redis.{
  RedisConfig, load_redis_config_with, with_sentinels, sentinel_addrs_of,
}

pub positive_of : (n : ℤ) → leb_ℤ n (pos 0) ≡ false → pos 0 <ℤ n
positive_of n h = ground arith

abbrev pub AllFilled : List String → Type 0
AllFilled [] = Unit
AllFilled (addr ∷ addrs) = (str_eq addr "" ≡ false) × AllFilled addrs

sentinel_addrs_of-AllFilled :
    (env : Environment) (values addrs : List String)
    → sentinel_addrs_of env values ≡ ok addrs
    → AllFilled addrs
unfolding sentinel_addrs_of
sentinel_addrs_of-AllFilled env [] addrs e = subst AllFilled (ok-injective e) tt
sentinel_addrs_of-AllFilled env (value ∷ values) addrs e =
    elim (Bool-cases (str_eq (env.trim_space value) "")) [
      | inl empty ↦ let wrong = rw empty at e in cc
      | inr filled ↦
          let (rest, found, e') =
            and_then-ok (sentinel_addrs_of env values) _ addrs (rw filled at e) in
          subst AllFilled (ok-injective e')
            (filled, sentinel_addrs_of-AllFilled env values rest found)
    ]

-- Each value gives an address.
sentinel_addrs_of-ne-nil :
    (env : Environment) (values addrs : List String)
    → values ≢ []
    → sentinel_addrs_of env values ≡ ok addrs
    → addrs ≢ []
unfolding sentinel_addrs_of
sentinel_addrs_of-ne-nil env [] addrs some_value e = absurd (some_value refl)
sentinel_addrs_of-ne-nil env (value ∷ values) addrs some_value e =
    elim (Bool-cases (str_eq (env.trim_space value) "")) [
      | inl empty ↦ let wrong = rw empty at e in cc
      | inr filled ↦
          let (rest, found, e') =
            and_then-ok (sentinel_addrs_of env values) _ addrs (rw filled at e) in
          let one : env.trim_space value ∷ rest ≡ addrs = ok-injective e' in λ empty. cc
    ]

-- Either a single server or a master with its sentinels, of which there is one at least and whose
-- addresses are not empty.
abbrev pub IsRedisConfig : RedisConfig → Type 0
IsRedisConfig cfg =
    (((str_eq cfg.master_name "" ≡ true) × (cfg.sentinel_addrs ≡ []))
      ⊎ ((str_eq cfg.master_name "" ≡ false)
          × (cfg.sentinel_addrs ≢ [])
          × AllFilled cfg.sentinel_addrs))
    × (pos 0 <ℤ cfg.dial_timeout)
    × (pos 0 <ℤ cfg.read_timeout)
    × (pos 0 <ℤ cfg.write_timeout)

with_sentinels-IsRedisConfig :
    (env : Environment) (base cfg : RedisConfig) (value : String)
    → base.sentinel_addrs ≡ []
    → pos 0 <ℤ base.dial_timeout
    → pos 0 <ℤ base.read_timeout
    → pos 0 <ℤ base.write_timeout
    → with_sentinels env base value ≡ ok cfg
    → IsRedisConfig cfg
unfolding with_sentinels
with_sentinels-IsRedisConfig env base cfg value none_yet dial read write e =
    elim (Bool-cases (str_eq base.master_name "")) [
      | inl single ↦ elim (Bool-cases (str_eq (env.trim_space value) "")) [
        | inl blank ↦
            subst IsRedisConfig (ok-injective (rw (single, blank) at e))
              (inl (single, none_yet), dial, read, write)
        | inr given ↦ let wrong = rw (single, given) at e in cc
      ]
      | inr named ↦ elim (Bool-cases (str_eq (env.trim_space value) "")) [
        | inl blank ↦ let wrong = rw (named, blank) at e in cc
        | inr given ↦
            let (addrs, found, e') =
              and_then-ok (sentinel_addrs_of env (env.split value ",")) _ cfg
                (rw (named, given) at e) in
            subst IsRedisConfig (ok-injective e') (
              inr (
                named,
                sentinel_addrs_of-ne-nil env (env.split value ",") addrs
                    (env.split_some value "," refl) found,
                sentinel_addrs_of-AllFilled env (env.split value ",") addrs found,
              ),
              dial,
              read,
              write,
            )
      ]
    ]

-- Whatever the environment holds, a Redis configuration that loads has either no master name and no
-- sentinel, or a master name and at least one sentinel and no empty address, and its timeouts are
-- positive.
pub load_redis_config_with-IsRedisConfig :
    (read_fallback : String) (env : Environment) (cfg : RedisConfig)
    → load_redis_config_with read_fallback env ≡ ok cfg
    → IsRedisConfig cfg
unfolding load_redis_config_with
load_redis_config_with-IsRedisConfig read_fallback env cfg e =
    let (dial, d, e1) = and_then-ok (positive_duration env "REDIS_DIAL_TIMEOUT" "500ms") _ cfg e in
    let (read, r, e2) =
      and_then-ok (positive_duration env "REDIS_READ_TIMEOUT" read_fallback) _ cfg e1 in
    let (write, w, e3) =
      and_then-ok (positive_duration env "REDIS_WRITE_TIMEOUT" "200ms") _ cfg e2 in
    with_sentinels-IsRedisConfig env _ cfg _ refl
      (positive_of dial (positive_duration_positive env _ _ dial d))
      (positive_of read (positive_duration_positive env _ _ read r))
      (positive_of write (positive_duration_positive env _ _ write w)) e3
