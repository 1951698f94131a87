-- ===== src/RedisBucket/Script.antt =====
-- `redisTokenBucketScript`. An argument that is the decimal text of an integer is read as that integer.
pub mod Effect
pub mod Hash
use rate_limiter_as_a_servic.Limiter.{Result, err, plain, ok}
use text.Mathlib.Text.{◌==◌ as str_eq}
use rate_limiter_as_a_servic.Floats.{Float64}
use rate_limiter_as_a_servic.RedisBucket.Server.{Redis, LuaText, Fields}
use rate_limiter_as_a_servic.Base.{
  ℤ, pos, String, Option, Bool, if◌then◌else◌, ◌∷◌, List, some, leb_ℤ, ◌&&◌, [], not, true, none,
  false,
}

-- KEYS and ARGV
pub record Arguments : Type 0 where
  pub bucket_key : String
  pub stream_key : String
  pub capacity : ℤ
  pub window_ms : ℤ
  pub cost : ℤ
  pub ttl_ms : ℤ
  pub client_id : String
  pub resource : String
  pub max_backlog : ℤ

abbrev pub bind_number {ℓ} : {A : Type ℓ} → Option String → (String → Option A) → Option A
bind_number none f = none
bind_number (some t) f = f t

module _ (N : Float64) (T : LuaText N) (S : Redis) where
  open N use {F, of_int, to_int, add, subtract, multiply, divide, minimum, maximum, le, floor, ceil}
  open T use {tostring, tonumber}

  -- Microseconds are cut off.
  unfoldable pub now_ms : S.R → F
  now_ms r =
      let (seconds, microseconds) = S.time r in
      add (multiply (of_int seconds) (of_int (pos 1000)))
        (floor (divide (of_int microseconds) (of_int (pos 1000))))

  -- The tokens after the refill, from what the bucket's fields hold.
  unfoldable pub refilled : Arguments → F → Option F → Option F → F
  refilled a now (some tokens) (some last_refill_ms) =
      let elapsed_ms = maximum (of_int (pos 0)) (subtract now last_refill_ms) in
      minimum (of_int a.capacity)
        (add tokens (divide (multiply elapsed_ms (of_int a.capacity)) (of_int a.window_ms)))
  refilled a now _ _ = of_int a.capacity

  unfoldable pub stored_tokens : S.R → Arguments → F
  stored_tokens r a =
      let (tokens, last_refill_ms) = S.hmget r a.bucket_key in
      refilled a (now_ms r) (bind_number tokens tonumber) (bind_number last_refill_ms tonumber)

  -- `cost <= tokens`, and the stream is full
  abbrev pub covers : Arguments → F → Bool
  covers a tokens = le (of_int a.cost) tokens

  abbrev pub is_full : S.R → Arguments → Bool
  is_full r a = leb_ℤ a.max_backlog (S.xlen r a.stream_key)

  abbrev pub is_granted : S.R → Arguments → F → Bool
  is_granted r a tokens = covers a tokens && not (is_full r a)

  -- `tokens` once the cost is taken, if it is.
  unfoldable pub tokens_left : S.R → Arguments → F → F
  tokens_left r a tokens = if is_granted r a tokens then subtract tokens (of_int a.cost) else tokens

  -- The fields of the event.
  unfoldable pub event : Arguments → F → F → Fields
  event a now tokens =
      ("client_id", a.client_id)
      ∷ ("resource", a.resource)
      ∷ ("cost", tostring (of_int a.cost))
      ∷ ("approved_at_ms", tostring now)
      ∷ ("remaining", tostring (floor tokens))
      ∷ []

  -- What is written, unless the backlog is full.
  unfoldable pub written : S.R → Arguments → F → F → Bool → S.R
  written r a now tokens allowed =
      let r' =
        S.pexpire (S.hset r a.bucket_key (tostring tokens) (tostring now)) a.bucket_key a.ttl_ms in
      if allowed then S.xadd r' a.stream_key (event a now tokens) else r'

  abbrev pub flag : Bool → ℤ
  flag true = pos 1
  flag false = pos 0

  unfoldable pub retry_after_ms : Arguments → F → F
  retry_after_ms a tokens = maximum (of_int (pos 1)) (
      ceil (
        divide (multiply (subtract (of_int a.cost) tokens) (of_int a.window_ms))
          (of_int a.capacity)))

  unfoldable pub reset_at_ms : Arguments → F → F → F
  reset_at_ms a now tokens = add now (
      ceil (
        divide (multiply (subtract (of_int a.capacity) tokens) (of_int a.window_ms))
          (of_int a.capacity)))

  -- The script from the refilled tokens on. Redis cuts the numbers of a reply off to integers.
  unfoldable pub decided : S.R → Arguments → F → F → List ℤ × S.R
  decided r a now refilled_tokens =
      let backlog_full = covers a refilled_tokens && is_full r a in
      let allowed = is_granted r a refilled_tokens in
      let tokens = tokens_left r a refilled_tokens in
      let retry =
        if covers a refilled_tokens then of_int (pos 0) else retry_after_ms a refilled_tokens in
      (
        flag allowed
            ∷ to_int (floor tokens)
            ∷ to_int (reset_at_ms a now tokens)
            ∷ to_int retry
            ∷ flag backlog_full
            ∷ [],
        if backlog_full then r else written r a now tokens allowed,
      )

  unfoldable pub run_script : S.R → Arguments → Result (List ℤ) × S.R
  run_script r a =
      let bucket_type = S.key_type r a.bucket_key in
      let stream_type = S.key_type r a.stream_key in
      if not (str_eq bucket_type "none") && not (str_eq bucket_type "hash")
      then (err (plain "rate-limit bucket key has an unexpected type"), r)
      else if not (str_eq stream_type "none") && not (str_eq stream_type "stream")
      then (err (plain "approved-request stream key has an unexpected type"), r)
      else let (reply, r') = decided r a (now_ms r) (stored_tokens r a) in (ok reply, r')
