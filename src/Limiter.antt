-- ===== src/Limiter.antt =====
-- internal/ratelimiter/ratelimiter.go: keys, policies, decisions and the sentinel errors that the
-- limiters share, with the part of Go's package `errors` that tells them apart, and the check of a
-- policy table, which fixed-window.go, sliding-log.go and token-bucket.go write out alike.
pub mod Policies
use Prim.Native.String.{◌++◌ as append}
use text.Mathlib.Text.{◌==◌ as str_eq}
use text.Mathlib.TextEquality.{eq_iff}
use rate_limiter_as_a_servic.Base.{
  ℕ, ℤ, pos, ◌<ℤ◌, ◌≤ℤ◌, leb_ℤ, String, Bool, true, false, ◌&&◌, ◌||◌, Option, none, some, [], ◌∷◌,
  ◌≡◌, ◌↔◌, arith, Comparable, Dict, nat_eq, if◌then◌else◌, max_int64, ◌⊎◌, inl, inr, refl,
}
use rate_limiter_as_a_servic.Clock.{Time, Duration}

-- The sentinel errors. `canceled` and `deadline_exceeded` are those of package `context`, and `eof`
-- is that of package `io`, `redis_nil` that of go-redis, and `server_closed` that of net/http.
pub data Sentinel : Type 0 where
  invalid_cost cost_exceeds_limit no_policy event_backlog_full : Sentinel
  unavailable : Sentinel
  canceled deadline_exceeded : Sentinel
  eof redis_nil server_closed : Sentinel

-- An `error`: a sentinel, a text that wraps nothing, or a text (`%w`) around an error.
pub data Error : Type 0 where
  sentinel : Sentinel → Error
  plain : String → Error
  wrapped : String → Error → Error

abbrev pub code : Sentinel → ℕ
code invalid_cost = 0
code cost_exceeds_limit = 1
code no_policy = 2
code event_backlog_full = 3
code unavailable = 4
code canceled = 5
code deadline_exceeded = 6
code eof = 7
code redis_nil = 8
code server_closed = 9

-- `errors.Is(err, target)` at a sentinel
unfoldable pub errors_is : Error → Sentinel → Bool
errors_is (sentinel s) target = nat_eq (code s) (code target)
errors_is (plain _) target = false
errors_is (wrapped _ e) target = errors_is e target

-- The texts of `errors.New`, and `err.Error()`.
abbrev pub sentinel_text : Sentinel → String
sentinel_text invalid_cost = "cost must be greater than zero"
sentinel_text cost_exceeds_limit = "cost cannot exceed the policy limit"
sentinel_text no_policy = "no rate-limit policy found"
sentinel_text event_backlog_full = "approval event backlog is full"
sentinel_text unavailable = "rate-limit dependency unavailable"
sentinel_text canceled = "context canceled"
sentinel_text deadline_exceeded = "context deadline exceeded"
sentinel_text eof = "EOF"
sentinel_text redis_nil = "redis: nil"
sentinel_text server_closed = "http: Server closed"

abbrev pub error_text : Error → String
error_text (sentinel s) = sentinel_text s
error_text (plain t) = t
error_text (wrapped t _) = t

-- `(A, error)` where the value is the zero value if the error is not nil.
pub data Result {ℓ} (A : Type ℓ) : Type ℓ where
  ok : A → Result A
  err : Error → Result A

pub ok-injective {ℓ} : {A : Type ℓ} {a b : A} → ok a ≡ ok b → a ≡ b
ok-injective e = cc

pub err-injective {ℓ} : {A : Type ℓ} {x : Result A} {a b : Error} → x ≡ err a → x ≡ err b → a ≡ b
err-injective p q = cc

pub Result-cases {ℓ} :
    {A : Type ℓ} (r : Result A) → ((a : A) × (r ≡ ok a)) ⊎ ((e : Error) × (r ≡ err e))
Result-cases (ok a) = inl (a, refl)
Result-cases (err e) = inr (e, refl)

abbrev pub and_then {ℓ κ} : {A : Type ℓ} {B : Type κ} → Result A → (A → Result B) → Result B
and_then (ok a) f = f a
and_then (err e) f = err e

-- For do blocks.
infixl 5 ◌>>=◌
abbrev pub ◌>>=◌ {ℓ κ} : {A : Type ℓ} {B : Type κ} → Result A → (A → Result B) → Result B
r >>= f = and_then r f

pub and_then-ok {ℓ κ} :
    {A : Type ℓ} {B : Type κ} (r : Result A) (f : A → Result B) (b : B)
    → and_then r f ≡ ok b
    → (a : A) × (r ≡ ok a) × (f a ≡ ok b)
and_then-ok (ok a) f b e = (a, refl, e)
and_then-ok (err e) f b h = cc

pub record Key : Type 0 where
  pub client_id : String
  pub resource : String

pub record Policy : Type 0 where
  pub limit : ℤ
  pub window : Duration

pub record Decision : Type 0 where
  pub allowed : Bool
  pub limit : ℤ
  pub remaining : ℤ
  pub reset_at : Time
  pub retry_after_ms : ℤ

unfoldable pub key_beq : Key → Key → Bool
key_beq a b = str_eq a.client_id b.client_id && str_eq a.resource b.resource

pub key_beq_iff : (a b : Key) → (key_beq a b ≡ true) ↔ (a ≡ b)
unfolding key_beq
key_beq_iff a b = ground (arith, eq_iff a.client_id b.client_id, eq_iff a.resource b.resource)

instance abbrev pub key_eq : Comparable Key
key_eq = record { same = key_beq; same_iff = key_beq_iff }

-- A range over a map visits the entries in some order: here that of the list.
unfoldable pub validate_policies : Dict Key Policy → Option Error
validate_policies [] = none
validate_policies ((key, policy) ∷ rest) =
    if str_eq key.client_id "" || str_eq key.resource ""
    then some (plain "policy client_id and resource are required")
    else if leb_ℤ policy.limit (pos 0) || leb_ℤ policy.window (pos 0)
    then some
        (plain (append "invalid policy for " (append key.client_id (append "/" key.resource))))
    else validate_policies rest

-- A policy that passes the check, of 64-bit words.
pub record IsValid (p : Policy) : Type 0 where
  pub limit_positive : pos 0 <ℤ p.limit
  pub limit_word : p.limit ≤ℤ max_int64
  pub window_positive : pos 0 <ℤ p.window
  pub window_word : p.window ≤ℤ max_int64
