-- ===== src/Api/Service/Defaults.antt =====
-- The shipped policies and the default stream, of which the end-to-end theorem asks.
use rate_limiter_as_a_servic.RedisBucket.Recorded.Policies.{AllRecordable}
use rate_limiter_as_a_servic.Config.Api.{token_bucket_policies}
use rate_limiter_as_a_servic.Clock.{minute}
use Prim.Native.Char.{code}
use Prim.Native.String.{String, ◌++◌ as append}
use Prim.Native.String.append.{nil as append_nil, cons as append_cons}
use text.Mathlib.Text.{◌==◌ as str_eq}
use text.Mathlib.TextEquality.{eq_iff}
use rate_limiter_as_a_servic.Limiter.{Key, key_eq}
use rate_limiter_as_a_servic.Base.{
  Bool, true, false, ◌||◌, ◌≡◌, nat_eq, ap, sym, ◌∙◌, refl, Bool-cases, inl, inr, subst, arith, pos,
  ℕ, ◌<◌, ◌≤◌, String,
}
use rate_limiter_as_a_servic.RedisBucket.Keys.{append-injective, colon}
use rate_limiter_as_a_servic.RedisBucket.Limiter.{
  RedisTokenBucketRateLimiter, redis_key, default_key_prefix, default_event_stream,
}
use rate_limiter_as_a_servic.RedisBucket.Recorded.Approved.{IsRecordable}

abbrev has_colon : String → Bool
has_colon String.[] = false
has_colon (String.◌∷◌ c s) = nat_eq (code c) 58 || has_colon s

has_colon-append : (s t : String) → has_colon t ≡ true → has_colon (append s t) ≡ true
has_colon-append String.[] t h = ap has_colon (append_nil t) ∙ h
has_colon-append (String.◌∷◌ c s) t h =
    let rest = has_colon-append s t h in ap has_colon (append_cons c s t) ∙ ground arith

-- A bucket's key has two colons, the stream has one.
pub default_stream_apart :
    (encode : String → String) (l : RedisTokenBucketRateLimiter) (key : Key)
    → l.key_prefix ≡ default_key_prefix
    → str_eq (redis_key encode l key) default_event_stream ≡ false
unfolding redis_key
default_stream_apart encode l key prefix =
    let after = append (encode key.client_id) (append ":" (encode key.resource)) in
    elim (Bool-cases (str_eq (redis_key encode l key) default_event_stream)) [
      | inr differ ↦ differ
      | inl same ↦
          let names : append l.key_prefix (append ":" after) ≡ default_event_stream =
            (eq_iff _ _).0 same in
          let shared : append default_key_prefix (append ":" after) ≡ default_event_stream =
            subst (λ p. append p (append ":" after) ≡ default_event_stream) prefix names in
          let tails : append ":" after ≡ ":approved_requests" =
            append-injective default_key_prefix (append ":" after) ":approved_requests" shared in
          let last : after ≡ "approved_requests" =
            append-injective ":" after "approved_requests" tails in
          let wrong : true ≡ false =
            sym (
              has_colon-append (encode key.client_id) (append ":" (encode key.resource))
                (ap has_colon (colon (encode key.resource))))
            ∙ ap has_colon last in
          cc
    ]

minute_policy-IsRecordable :
    (key : Key) (n : ℕ)
    → 0 < n
    → n ≤ 2_147_483_647
    → str_eq key.client_id "" ≡ false
    → str_eq key.resource "" ≡ false
    → IsRecordable key (record { limit = pos n; window = minute })
minute_policy-IsRecordable key n positive small has_client has_resource = record {
  storable = record {
    valid = record {
      limit_positive = omega arith;
      limit_word = omega arith;
      window_positive = omega arith;
      window_word = omega arith;
    };
    window_ms = omega arith;
    window_word = omega arith;
    limit_text = omega arith;
  };
  limit_word = omega arith;
  has_client = has_client;
  has_resource = has_resource;
}

pub shipped_policies-AllRecordable : AllRecordable token_bucket_policies
shipped_policies-AllRecordable = (
  minute_policy-IsRecordable _ 100 (omega arith) (omega arith) refl refl,
  (minute_policy-IsRecordable _ 5000 (omega arith) (omega arith) refl refl, tt),
)
