-- ===== src/Limiter/Policies.antt =====
-- What the check of a policy table accepts.
use rate_limiter_as_a_servic.Limiter.{Key, validate_policies, Policy, eq_iff, key_eq}
use rate_limiter_as_a_servic.Base.{
  pos, Dict, lookup, ◌≢◌, ◌∷◌, ◌≡◌, none, some, ◌<ℤ◌, arith, [], refl,
}

-- An entry of a policy table that the check accepts.
pub record WellFormed (entry : Key × Policy) : Type 0 where
  pub has_client : entry.0.client_id ≢ ""
  pub has_resource : entry.0.resource ≢ ""
  pub limit_positive : pos 0 <ℤ entry.1.limit
  pub window_positive : pos 0 <ℤ entry.1.window

abbrev pub AllWellFormed : Dict Key Policy → Type 0
AllWellFormed [] = Unit
AllWellFormed (entry ∷ rest) = WellFormed entry × AllWellFormed rest

pub validate_policies_sound :
    (policies : Dict Key Policy) → validate_policies policies ≡ none → AllWellFormed policies
unfolding validate_policies
validate_policies_sound [] e = tt
validate_policies_sound ((key, policy) ∷ rest) e =
    ground (arith, eq_iff key.client_id "", eq_iff key.resource "", validate_policies_sound rest)

pub validate_policies_complete :
    (policies : Dict Key Policy) → AllWellFormed policies → validate_policies policies ≡ none
unfolding validate_policies
validate_policies_complete [] w = refl
validate_policies_complete ((key, policy) ∷ rest) w =
    ground
      (arith, eq_iff key.client_id "", eq_iff key.resource "", validate_policies_complete rest w.1)

-- Every policy that an accepted table gives for a key has a positive limit and window.
pub lookup_positive :
    (policies : Dict Key Policy) (key : Key) (p : Policy)
    → AllWellFormed policies
    → lookup key policies ≡ some p
    → (pos 0 <ℤ p.limit) × (pos 0 <ℤ p.window)
unfolding lookup
lookup_positive [] key p w e = cc
lookup_positive (entry ∷ rest) key p w e = ground (arith, lookup_positive rest key p w.1)
