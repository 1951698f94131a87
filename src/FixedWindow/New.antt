-- ===== src/FixedWindow/New.antt =====
-- The construction of the fixed-window limiter.
use rate_limiter_as_a_servic.Limiter.Policies.{
  AllWellFormed, validate_policies_sound, validate_policies_complete,
}
use rate_limiter_as_a_servic.Limiter.{Key, Policy, ok}
use rate_limiter_as_a_servic.FixedWindow.{
  new_fixed_window_rate_limiter, validate_fixed_window_policies, Key, Policy, ok, fresh,
}
use rate_limiter_as_a_servic.Base.{Dict, Bool, ◌≡◌, ◌↔◌, true, arith, false, refl}

-- The constructor succeeds exactly with a clock and a table in which every entry names a client and
-- a resource and has a positive limit and window; the limiter then has that table and no window.
pub new_fixed_window_rate_limiter_iff :
    (policies : Dict Key Policy) (has_clock : Bool)
    → (new_fixed_window_rate_limiter policies has_clock ≡ ok (fresh policies))
      ↔ ((has_clock ≡ true) × AllWellFormed policies)
unfolding new_fixed_window_rate_limiter validate_fixed_window_policies
new_fixed_window_rate_limiter_iff policies true = (
  λ e. (refl, validate_policies_sound policies (ground arith)),
  λ w. rw (validate_policies_complete policies w.1),
)
new_fixed_window_rate_limiter_iff policies false = (λ e. cc, λ w. cc)
