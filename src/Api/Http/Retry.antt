-- ===== src/Api/Http/Retry.antt =====
-- The Retry-After header of a service that is unavailable.
use rate_limiter_as_a_servic.Api.Http.{retry_after_seconds, quot, sub64, add64}
use rate_limiter_as_a_servic.Clock.{Duration, second}
use Prim.Native.Nat.{zero, suc}
use native.Mathlib.Nat.{div-add-mod, mod-lt}
use rate_limiter_as_a_servic.Base.{
  pos, ◌<ℤ◌, ◌+ℤ◌, ◌≤ℤ◌, max_int64, ◌*ℤ◌, quot, arith, suc, sub64, add64, ◌≡◌, ◌+◌, negsuc, ap,
  add64_exact, int_laws, ◌∙◌, sub64_exact, eq_of_parts, ◌<◌,
}

-- The open timeout rounded up to whole seconds: a client that waits that long comes after the
-- timeout has passed, and by less than a second; for a positive timeout it is at least one.
pub retry_after_seconds-bounds :
    (d : Duration)
    → pos 0 <ℤ d
    → d +ℤ second ≤ℤ max_int64
    → (d ≤ℤ retry_after_seconds d *ℤ second)
      × (retry_after_seconds d *ℤ second <ℤ d +ℤ second)
      × (pos 1 ≤ℤ retry_after_seconds d)
unfolding retry_after_seconds quot ◌*ℤ◌
retry_after_seconds-bounds (pos zero) positive small = absurd (omega arith)
retry_after_seconds-bounds (pos (suc n)) positive small =
    let exact : sub64 (add64 (pos (suc n)) second) (pos 1) ≡ pos (n + 1_000_000_000) =
      ap (λ x. sub64 x (pos 1)) (add64_exact (pos (suc n)) second (omega int_laws, omega int_laws))
      ∙ sub64_exact (pos (suc n) +ℤ second) (pos 1) (omega int_laws, omega int_laws)
      ∙ eq_of_parts _ _ (omega int_laws) in
    let whole = div-add-mod (n + 1_000_000_000) 1_000_000_000 in
    let unit : 0 < 1_000_000_000 = omega arith in
    let rest = mod-lt (n + 1_000_000_000) unit in
    rw exact
      (grind (int_laws, whole, rest), grind (int_laws, whole, rest), grind (int_laws, whole, rest))
retry_after_seconds-bounds (negsuc n) positive small = absurd (omega arith)
