-- ===== src/History.antt =====
-- What a caller of a limiter sees: the requests, in the order in which the mutex let them in, and
-- the answers. A history lists the newest first. Nothing here is code of the repository: the
-- limiters are specified against it.
use rate_limiter_as_a_servic.Base.{
  ℤ, pos, ◌+ℤ◌, ◌≤ℤ◌, Bool, true, false, ◌&&◌, Option, List, [], ◌∷◌, ◌==◌, if◌then◌else◌, ◌≡◌,
  arith, some, none,
}
use rate_limiter_as_a_servic.Clock.{Time}
use rate_limiter_as_a_servic.Limiter.{Key, key_eq, Decision, Error, Result, ok, err, key_beq}

-- A call of `Allow`: the reading of the limiter's clock, the error of the context if it is done,
-- and the arguments.
pub record Request : Type 0 where
  pub at : Time
  pub ctx_err : Option Error
  pub key : Key
  pub cost : ℤ

abbrev pub Log : Type 0
Log = List (Request × Result Decision)

abbrev pub is_allowed : Result Decision → Bool
is_allowed (ok d) = d.allowed
is_allowed (err _) = false

abbrev pub has_ended : Option Error → Bool
has_ended none = false
has_ended (some _) = true

-- A limiter's states and answers, request by request.
module _ {S : Type 0} (allow : S → Request → Result Decision × S) (start : S) where
  unfoldable pub exec : List Request → S × Log
  exec [] = (start, [])
  exec (r ∷ older) =
      let (s, log) = exec older in let (answer, s') = allow s r in (s', (r, answer) ∷ log)

-- The cost that one entry has drawn from `key` at an instant that `inside` tells.
unfoldable pub charge : Key → (Time → Bool) → Request → Result Decision → ℤ
charge key inside r answer =
    if is_allowed answer && (key == r.key && inside r.at) then r.cost else pos 0

pub charge_refused :
    (key : Key) (inside : Time → Bool) (r : Request) (answer : Result Decision)
    → is_allowed answer ≡ false
    → charge key inside r answer ≡ pos 0
unfolding charge
charge_refused key inside r answer refused = rw refused

pub charge_other :
    (key : Key) (inside : Time → Bool) (r : Request) (answer : Result Decision)
    → key_beq key r.key ≡ false
    → charge key inside r answer ≡ pos 0
unfolding charge
charge_other key inside r answer other = ground arith

pub charge_allowed :
    (key : Key) (inside : Time → Bool) (r : Request) (d : Decision)
    → d.allowed ≡ true
    → key_beq key r.key ≡ true
    → charge key inside r (ok d) ≡ (if inside r.at then r.cost else pos 0)
unfolding charge
charge_allowed key inside r d granted here = ground arith

-- The cost that a history has drawn from `key` at such instants.
unfoldable pub spent : Key → (Time → Bool) → Log → ℤ
spent key inside [] = pos 0
spent key inside ((r, answer) ∷ log) = charge key inside r answer +ℤ spent key inside log

-- No request reads an earlier time than the one before it, and none a later time than `now`.
abbrev pub Ordered : Time → List Request → Type 0
Ordered now [] = Unit
Ordered now (r ∷ older) = (r.at ≤ℤ now) × Ordered r.at older
