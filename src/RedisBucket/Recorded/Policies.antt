-- ===== src/RedisBucket/Recorded/Policies.antt =====
-- The policies of a table that the column types can hold.
use rate_limiter_as_a_servic.Limiter.{Key, Policy, key_eq, key_beq_iff}
use rate_limiter_as_a_servic.Base.{
  Dict, [], ◌∷◌, ◌≡◌, some, lookup, ◌==◌, Bool-cases, inl, inr, sym, subst,
}
use rate_limiter_as_a_servic.RedisBucket.Recorded.Approved.{IsRecordable}

abbrev pub AllRecordable : Dict Key Policy → Type 0
AllRecordable [] = Unit
AllRecordable ((key, policy) ∷ rest) = IsRecordable key policy × AllRecordable rest

pub lookup-AllRecordable :
    (table : Dict Key Policy) (key : Key) (p : Policy)
    → AllRecordable table
    → lookup key table ≡ some p
    → IsRecordable key p
unfolding lookup
lookup-AllRecordable [] key p all found = cc
lookup-AllRecordable ((k, q) ∷ rest) key p (here, all) found = elim (Bool-cases (key == k)) [
  | inl same ↦
      let first : some q ≡ some p = rw same at found in
      let policy : q ≡ p = cc in
      subst (λ x. IsRecordable x p) (sym ((key_beq_iff key k).0 same))
        (subst (IsRecordable k) policy here)
  | inr other ↦ lookup-AllRecordable rest key p all (rw other at found)
]
