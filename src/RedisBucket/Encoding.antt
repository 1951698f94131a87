-- ===== src/RedisBucket/Encoding.antt =====
-- A concrete encoding of texts without a colon, for the tests: each character's number in unary.
use Prim.Native.Char.{code}
use Prim.Native.String.{String}
use rate_limiter_as_a_servic.RedisBucket.Keys.{IsPlain, IsEncoding, head, tail}
use text.Mathlib.TextEquality.{Char-path}
use rate_limiter_as_a_servic.Base.{ℕ, suc, zero, ◌≡◌, ap, sym, refl, Bool, true, false, arith}

abbrev pub mark : ℕ → String → String
mark zero s = String.◌∷◌ "0" s
mark (suc n) s = String.◌∷◌ "1" (mark n s)

abbrev pub in_marks : String → String
in_marks String.[] = String.[]
in_marks (String.◌∷◌ c s) = mark (code c) (in_marks s)

mark-injective : (n m : ℕ) (s t : String) → mark n s ≡ mark m t → (n ≡ m) × (s ≡ t)
mark-injective zero zero s t e = (refl, ap tail e)
mark-injective zero (suc m) s t e =
    let numbers : ◌≡◌ {A = ℕ} 48 49 = ap (λ x. code (head "0" x)) e in absurd (omega arith)
mark-injective (suc n) zero s t e =
    let numbers : ◌≡◌ {A = ℕ} 49 48 = ap (λ x. code (head "0" x)) e in absurd (omega arith)
mark-injective (suc n) (suc m) s t e =
    let (same, rest) = mark-injective n m s t (ap tail e) in (ap suc same, rest)

abbrev is_empty : String → Bool
is_empty String.[] = true
is_empty (String.◌∷◌ c s) = false

mark_filled : (n : ℕ) (s : String) → mark n s ≡ "" → ⊥
mark_filled zero s e = let wrong : false ≡ true = ap is_empty e in cc
mark_filled (suc n) s e = let wrong : false ≡ true = ap is_empty e in cc

mark-IsPlain : (n : ℕ) (s : String) → IsPlain s → IsPlain (mark n s)
mark-IsPlain zero s h = (λ e. let numbers : ◌≡◌ {A = ℕ} 48 58 = ap code e in omega arith, h)
mark-IsPlain (suc n) s h =
    (λ e. let numbers : ◌≡◌ {A = ℕ} 49 58 = ap code e in omega arith, mark-IsPlain n s h)

in_marks-IsPlain : (s : String) → IsPlain (in_marks s)
in_marks-IsPlain String.[] = tt
in_marks-IsPlain (String.◌∷◌ c s) = mark-IsPlain (code c) (in_marks s) (in_marks-IsPlain s)

in_marks-injective : (s t : String) → in_marks s ≡ in_marks t → s ≡ t
in_marks-injective String.[] String.[] e = refl
in_marks-injective String.[] (String.◌∷◌ d t) e = absurd (mark_filled (code d) (in_marks t) (sym e))
in_marks-injective (String.◌∷◌ c s) String.[] e = absurd (mark_filled (code c) (in_marks s) e)
in_marks-injective (String.◌∷◌ c s) (String.◌∷◌ d t) e =
    let (codes, rest) = mark-injective (code c) (code d) (in_marks s) (in_marks t) e in
    let chars : c ≡ d = Char-path c d codes in let texts : s ≡ t = in_marks-injective s t rest in cc

pub in_marks-IsEncoding : IsEncoding in_marks
in_marks-IsEncoding = record { plain = in_marks-IsPlain; injective = in_marks-injective }
