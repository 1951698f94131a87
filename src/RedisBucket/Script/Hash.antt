-- ===== src/RedisBucket/Script/Hash.antt =====
-- What the script reads from the hashes of buckets and leaves in them.
use rate_limiter_as_a_servic.Floats.{Float64}
use rate_limiter_as_a_servic.TokenBucket.Refill.{Within, capped-Within}
use rate_limiter_as_a_servic.RedisBucket.Server.{Redis, LuaText}
use rate_limiter_as_a_servic.RedisBucket.Script.{Arguments, written, event, refilled}
use text.Mathlib.Text.{◌==◌ as str_eq}
use rate_limiter_as_a_servic.Base.{
  Bool, ◌≡◌, false, if◌then◌else◌, ◌∙◌, ℤ, pos, String, Option, some, none, ltb_ℤ, Bool-cases, inl,
  inr, ap, ◌<ℤ◌, ◌≤ℤ◌, max_int64, arith, refl,
}

module _ (N : Float64) (T : LuaText N) (S : Redis) where
  open N use {F, of_int, le, add, multiply, divide, maximum, subtract}

  pub hmget-written :
      (r : S.R) (a : Arguments) (now tokens : F) (allowed : Bool)
      → str_eq a.bucket_key a.stream_key ≡ false
      → S.hmget (written N T S r a now tokens allowed) a.bucket_key ≡ (
          if ltb_ℤ (pos 0) a.ttl_ms
          then (some (T.tostring tokens), some (T.tostring now))
          else (none, none))
  unfolding written
  hmget-written r a now tokens allowed apart =
      let stored = S.hset r a.bucket_key (T.tostring tokens) (T.tostring now) in
      let expiring = S.pexpire stored a.bucket_key a.ttl_ms in
      let kept =
        S.hmget_pexpire stored a.bucket_key a.ttl_ms
        ∙ ap (λ h. if ltb_ℤ (pos 0) a.ttl_ms then h else (none, none))
            (S.hmget_hset r a.bucket_key (T.tostring tokens) (T.tostring now)) in
      elim (Bool-cases allowed) [
        | inl grant ↦ rw grant (
            S.hmget_xadd expiring a.bucket_key a.stream_key (event N T S a now tokens) apart ∙ kept)
        | inr deny ↦ rw deny kept
      ]

  pub hmget-written_other :
      (r : S.R) (a : Arguments) (now tokens : F) (allowed : Bool) (k : String)
      → str_eq a.bucket_key k ≡ false
      → str_eq k a.stream_key ≡ false
      → S.hmget (written N T S r a now tokens allowed) k ≡ S.hmget r k
  unfolding written
  hmget-written_other r a now tokens allowed k other apart =
      let stored = S.hset r a.bucket_key (T.tostring tokens) (T.tostring now) in
      let expiring = S.pexpire stored a.bucket_key a.ttl_ms in
      let kept =
        S.hmget_pexpire_other stored a.bucket_key k a.ttl_ms other
        ∙ S.hmget_hset_other r a.bucket_key k (T.tostring tokens) (T.tostring now) other in
      elim (Bool-cases allowed) [
        | inl grant ↦
            rw grant (S.hmget_xadd expiring k a.stream_key (event N T S a now tokens) apart ∙ kept)
        | inr deny ↦ rw deny kept
      ]

  full-Within : (n : ℤ) → pos 0 ≤ℤ n → Within N n (of_int n)
  full-Within n positive = (N.of_int_mono (pos 0) n positive, N.of_int_mono n n (omega arith))

  pub refilled-Within :
      (a : Arguments) (now : F) (held stamp : Option F)
      → pos 0 <ℤ a.capacity
      → a.capacity ≤ℤ max_int64
      → pos 0 <ℤ a.window_ms
      → a.window_ms ≤ℤ max_int64
      → ((x : F) → held ≡ some x → Within N a.capacity x)
      → Within N a.capacity (refilled N T S a now held stamp)
  unfolding refilled
  refilled-Within a now (some tokens) (some last) positive word window short fits =
      let elapsed_ms = maximum (of_int (pos 0)) (subtract now last) in
      (capped-Within N a.capacity tokens
        (divide (multiply elapsed_ms (of_int a.capacity)) (of_int a.window_ms))
        (N.quotient_nonneg (multiply elapsed_ms (of_int a.capacity)) a.window_ms
          (N.product_nonneg elapsed_ms a.capacity (N.maximum_nonneg (subtract now last)) positive
            word)
          window short)
        (fits tokens refl)).0
  refilled-Within a now none stamp positive word window short fits =
      full-Within a.capacity (omega arith)
  refilled-Within a now (some tokens) none positive word window short fits =
      full-Within a.capacity (omega arith)
