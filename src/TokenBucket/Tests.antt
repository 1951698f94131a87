-- ===== src/TokenBucket/Tests.antt =====
-- Tests of the token-bucket limiter, and its theorems at concrete inputs, with integers for the
-- numbers: every operation is then exact but the division, which cuts off.
use rate_limiter_as_a_servic.Clock.{minute, sub}
use rate_limiter_as_a_servic.History.{Log, exec, spent, Request, is_allowed}
use rate_limiter_as_a_servic.Limiter.{Key, Policy, key_beq, key_eq}
use rate_limiter_as_a_servic.Floats.Whole.{whole_numbers}
use rate_limiter_as_a_servic.TokenBucket.{
  refilled_bucket, refilled_from, refill, whole_tokens, decide, step, fresh, allow, Key, Policy,
}
use rate_limiter_as_a_servic.TokenBucket.Refill.{IsCountable, left_in}
use rate_limiter_as_a_servic.TokenBucket.Conserved.{ever}
use rate_limiter_as_a_servic.TokenBucket.Reference.{tokens_at, bucket_after, came_back}
use rate_limiter_as_a_servic.TokenBucket.Quota.{spent_conserved, step-IsAnswer, IsAnswer}
use rate_limiter_as_a_servic.TokenBucket.Burst.{burst-le-limit}
use rate_limiter_as_a_servic.Base.{
  pos, Dict, ℕ, List, arith, lookup, ◌∷◌, Bool, insert, ◌≤ℤ◌, ◌+ℤ◌, [], ◌*◌, ◌≡◌, ◌-ℤ◌, none, quot,
  some, ◌*ℤ◌, false, refl, true,
}

abbrev client : Key
client = record { client_id = "client-a"; resource = "openai" }

abbrev six_a_minute : Policy
six_a_minute = record { limit = pos 6; window = minute }

abbrev table : Dict Key Policy
table = (client, six_a_minute) ∷ []

abbrev ask : ℕ → ℕ → Request
ask seconds cost = record {
  at = pos (seconds * 1_000_000_000);
  ctx_err = none;
  key = client;
  cost = pos cost;
}

abbrev answers : Log → List Bool
answers [] = []
answers ((r, answer) ∷ log) = is_allowed answer ∷ answers log

-- Newest first: a token comes back every ten seconds.
abbrev asked : List Request
asked = ask 10 2 ∷ ask 10 1 ∷ ask 0 1 ∷ ask 0 5 ∷ []

asked-answers :
    answers (exec (step whole_numbers) (fresh whole_numbers table) asked).1
    ≡ false ∷ true ∷ true ∷ true ∷ []
unfolding exec allow decide refilled_bucket refilled_from refill whole_tokens lookup insert key_beq
    sub quot ◌+ℤ◌ ◌-ℤ◌ ◌*ℤ◌
asked-answers = refl

countable : IsCountable six_a_minute
countable = record { valid = omega arith; limit_exact = omega arith }

known : lookup client table ≡ some six_a_minute
unfolding lookup key_beq
known = refl

spent_conserved_example :
    let (l, log) = exec (step whole_numbers) (fresh whole_numbers table) asked in
    let left = left_in whole_numbers six_a_minute (lookup client l.buckets) in
    (spent client ever log +ℤ left ≡ pos 6 +ℤ came_back whole_numbers six_a_minute client log)
    × (pos 0 ≤ℤ left)
    × (left ≤ℤ pos 6)
spent_conserved_example =
    spent_conserved whole_numbers client six_a_minute table asked countable known

step-IsAnswer_example :
    let (l, log) = exec (step whole_numbers) (fresh whole_numbers table) asked in
    let r : Request = ask 20 2 in
    let tokens =
      tokens_at whole_numbers six_a_minute
        (bucket_after whole_numbers six_a_minute client log)
        r.at in
    IsAnswer whole_numbers six_a_minute (pos 2) tokens (step whole_numbers l r).0
step-IsAnswer_example =
    step-IsAnswer whole_numbers client six_a_minute table asked (pos 20_000_000_000) (pos 2)
      countable known (omega arith) (omega arith)

abbrev burst : List Request
burst = ask 7 3 ∷ ask 7 2 ∷ ask 7 4 ∷ []

burst-le-limit_example :
    spent client ever (exec (step whole_numbers) (fresh whole_numbers table) burst).1 ≤ℤ pos 6
burst-le-limit_example =
    burst-le-limit whole_numbers client six_a_minute table countable known (pos 7_000_000_000) burst
      (refl, (refl, (refl, tt)))
