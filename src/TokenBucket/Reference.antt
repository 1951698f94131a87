-- ===== src/TokenBucket/Reference.antt =====
-- A bucket of tokens as its policy describes it, told from the history of requests and answers alone:
-- the independent description that the limiter of token-bucket.go is compared with. Its numbers are
-- doubles, since how the code rounds decides which requests it allows.
use rate_limiter_as_a_servic.Limiter.{Policy, Key, key_beq, key_eq}
use rate_limiter_as_a_servic.History.{Log, is_allowed}
use rate_limiter_as_a_servic.Clock.{Time, Duration, sub}
use rate_limiter_as_a_servic.Floats.{Float64}
use rate_limiter_as_a_servic.TokenBucket.{Bucket}
use rate_limiter_as_a_servic.TokenBucket.Exact.{is_considered}
use rate_limiter_as_a_servic.Base.{
  ℤ, pos, Option, none, some, [], ◌∷◌, if◌then◌else◌, leb_ℤ, max_ℤ, ◌&&◌, ◌+ℤ◌, ◌-ℤ◌, Bool,
}

module _ (N : Float64) (p : Policy) where
  open N use {F, of_int, to_int, add, subtract, multiply, divide, minimum, floor}

  -- What comes back in a while, at the rate of the limit in each window.
  unfoldable pub returned : Duration → F
  returned elapsed = divide (multiply (of_int elapsed) (of_int p.limit)) (of_int p.window)

  -- The tokens at an instant: a key that has asked for nothing has its limit, and else what was left
  -- comes back up to the limit. A clock that is not ahead of the last request brings nothing.
  unfoldable pub tokens_at : Option (Bucket F) → Time → F
  tokens_at none now = of_int p.limit
  tokens_at (some b) now =
      if leb_ℤ now b.last_refill
      then b.tokens
      else minimum (of_int p.limit) (add b.tokens (returned (sub now b.last_refill)))

  abbrev pub latest : Option (Bucket F) → Time → Time
  latest none now = now
  latest (some b) now = max_ℤ b.last_refill now

  -- A request that is allowed takes its cost.
  abbrev pub taken : Bool → ℤ → F → F
  taken allowed cost tokens = if allowed then subtract tokens (of_int cost) else tokens

  -- The bucket after a history, which lists the newest request first.
  unfoldable pub bucket_after : Key → Log → Option (Bucket F)
  bucket_after key [] = none
  bucket_after key ((r, answer) ∷ log) =
      let b = bucket_after key log in
      if key_beq key r.key && is_considered N p r
      then some (record {
        tokens = taken (is_allowed answer) r.cost (tokens_at b r.at);
        last_refill = latest b r.at;
      })
      else b

  abbrev pub whole : F → ℤ
  whole x = to_int (floor x)

  -- The whole tokens that a key can spend.
  abbrev pub whole_left : Option (Bucket F) → ℤ
  whole_left none = p.limit
  whole_left (some b) = whole b.tokens

  -- The whole tokens that have come back over a history, at the key's requests.
  unfoldable pub came_back : Key → Log → ℤ
  came_back key [] = pos 0
  came_back key ((r, answer) ∷ log) =
      let b = bucket_after key log in
      (if key_beq key r.key && is_considered N p r
        then whole (tokens_at b r.at) -ℤ whole_left b
        else pos 0)
      +ℤ came_back key log
