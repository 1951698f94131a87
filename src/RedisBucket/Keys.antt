-- ===== src/RedisBucket/Keys.antt =====
-- Redis keys of buckets: clients and resources never share one.
use Prim.Native.Char.{Char}
use Prim.Native.String.append.{nil as append_nil, cons as append_cons}
use rate_limiter_as_a_servic.Limiter.{Key}
use rate_limiter_as_a_servic.RedisBucket.Limiter.{RedisTokenBucketRateLimiter, redis_key}
use Prim.Native.String.{String, ◌++◌ as append}
use rate_limiter_as_a_servic.Base.{◌≡◌, refl, ap, sym, ◌≢◌, ◌∙◌}

-- A text without a colon.
abbrev pub IsPlain : String → Type 0
IsPlain String.[] = Unit
IsPlain (String.◌∷◌ c s) = ((c ≡ ":") → ⊥) × IsPlain s

abbrev pub head : Char → String → Char
head c String.[] = c
head c (String.◌∷◌ d s) = d

abbrev pub tail : String → String
tail String.[] = String.[]
tail (String.◌∷◌ c s) = s

-- The first colon is where the first text ends.
split_at_colon :
    (s s' t t' : String)
    → IsPlain s
    → IsPlain s'
    → append s (String.◌∷◌ ":" t) ≡ append s' (String.◌∷◌ ":" t')
    → (s ≡ s') × (t ≡ t')
split_at_colon String.[] String.[] t t' h h' e =
    (refl, ap tail (sym (append_nil (String.◌∷◌ ":" t)) ∙ e ∙ append_nil (String.◌∷◌ ":" t')))
split_at_colon String.[] (String.◌∷◌ d s') t t' h (differs, h') e = absurd (
    differs (
      sym (
        ap (head ":")
          (sym (append_nil (String.◌∷◌ ":" t)) ∙ e ∙ append_cons d s' (String.◌∷◌ ":" t')))))
split_at_colon (String.◌∷◌ c s) String.[] t t' (differs, h) h' e = absurd (
    differs (
      ap (head ":")
        (sym (append_cons c s (String.◌∷◌ ":" t)) ∙ e ∙ append_nil (String.◌∷◌ ":" t'))))
split_at_colon (String.◌∷◌ c s) (String.◌∷◌ d s') t t' (_, h) (_, h') e =
    let same =
      sym (append_cons c s (String.◌∷◌ ":" t)) ∙ e ∙ append_cons d s' (String.◌∷◌ ":" t') in
    let (texts, rests) = split_at_colon s s' t t' h h' (ap tail same) in
    let first : c ≡ d = ap (head c) same in (cc, rests)

pub append-injective : (s t u : String) → append s t ≡ append s u → t ≡ u
append-injective String.[] t u e = sym (append_nil t) ∙ e ∙ append_nil u
append-injective (String.◌∷◌ c s) t u e =
    append-injective s t u (ap tail (sym (append_cons c s t) ∙ e ∙ append_cons c s u))

pub colon : (s : String) → append ":" s ≡ String.◌∷◌ ":" s
colon s = append_cons ":" String.[] s ∙ ap (String.◌∷◌ ":") (append_nil s)

-- What the limiter relies on of `base64.RawURLEncoding`: different texts have different encodings,
-- which have no colon.
pub record IsEncoding (encode : String → String) : Type 0 where
  pub plain : (s : String) → IsPlain (encode s)
  pub injective : (s t : String) → encode s ≡ encode t → s ≡ t

-- A Redis key tells its key.
pub redis_key-injective :
    (encode : String → String) (l : RedisTokenBucketRateLimiter) (a b : Key)
    → IsEncoding encode
    → redis_key encode l a ≡ redis_key encode l b
    → a ≡ b
unfolding redis_key
redis_key-injective encode l a b i e =
    let after_prefix = append-injective l.key_prefix _ _ e in
    let parts = sym (colon _) ∙ after_prefix ∙ colon _ in
    let rest = ap tail parts in
    let at_colon =
      sym (ap (append (encode a.client_id)) (colon (encode a.resource)))
      ∙ rest
      ∙ ap (append (encode b.client_id)) (colon (encode b.resource)) in
    let (clients, resources) =
      split_at_colon (encode a.client_id) (encode b.client_id) (encode a.resource)
        (encode b.resource) (i.plain a.client_id) (i.plain b.client_id) at_colon in
    let client = i.injective _ _ clients in
    let resource = i.injective _ _ resources in
    λ j. record { client_id = client j; resource = resource j }

-- Keys never share a bucket: different keys of a limiter have different Redis keys, whatever
-- characters their texts have, for an encoding that tells texts apart and has no colon.
pub redis_key_distinct :
    (encode : String → String) (l : RedisTokenBucketRateLimiter) (a b : Key)
    → IsEncoding encode
    → a ≢ b
    → redis_key encode l a ≢ redis_key encode l b
redis_key_distinct encode l a b encoding differ same =
    differ (redis_key-injective encode l a b encoding same)
