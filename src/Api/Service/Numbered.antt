-- ===== src/Api/Service/Numbered.antt =====
-- One Redis for the script and for the worker, in the tests: association lists on one side, a list of
-- messages on the other.
use rate_limiter_as_a_servic.Base.{
  ℕ, suc, String, List, [], ◌∷◌, ◌++◌, ◌≡◌, ◌⊎◌, inl, inr, refl, subst, sym,
}
use rate_limiter_as_a_servic.Events.Decode.{XMessage}
use rate_limiter_as_a_servic.Events.Memory.{Has, entries, contains_self, contains-cons, stream}
use rate_limiter_as_a_servic.RedisBucket.Server.{Fields}
use rate_limiter_as_a_servic.RedisBucket.Memory.{in_memory, unary}
use rate_limiter_as_a_servic.RedisBucket.Limiter.{default_event_stream}
use rate_limiter_as_a_servic.Api.Service.Kept.{SameRedis}

-- The entries of the stream, whose IDs are their places.
abbrev pub numbered : ℕ → List Fields → List XMessage
numbered n [] = []
numbered n (f ∷ fs) = record { id = unary n; values = f } ∷ numbered (suc n) fs

abbrev pub next_id : ℕ → List Fields → String
next_id n [] = unary n
next_id n (f ∷ fs) = next_id (suc n) fs

abbrev pub HasMessage : List XMessage → String → Fields → Type 0
HasMessage [] id f = ⊥
HasMessage (m ∷ ms) id f = ((m.id ≡ id) × (m.values ≡ f)) ⊎ HasMessage ms id f

pub HasMessage-numbered :
    (n : ℕ) (fs : List Fields) (f : Fields)
    → HasMessage (numbered n (fs ++ f ∷ [])) (next_id n fs) f
HasMessage-numbered n [] f = inl (refl, refl)
HasMessage-numbered n (x ∷ fs) f = inr (HasMessage-numbered (suc n) fs f)

pub HasMessage-entry :
    (ms : List XMessage) (id : String) (f : Fields) → HasMessage ms id f → Has id (entries ms)
HasMessage-entry [] id f there = absurd there
HasMessage-entry (m ∷ ms) id f (inl (same, _)) =
    subst (λ x. Has x (entries (m ∷ ms))) same (contains_self m.id (entries ms))
HasMessage-entry (m ∷ ms) id f (inr later) =
    contains-cons id m.id (entries ms) (HasMessage-entry ms id f later)

abbrev pub numbered_stream : SameRedis in_memory stream default_event_stream
numbered_stream = record {
  seen = λ m. numbered 0 (in_memory.entries m default_event_stream);
  has_message = HasMessage;
  appended = λ before after f e. (
    next_id 0 (in_memory.entries before default_event_stream),
    subst
        (λ fs.
          HasMessage (numbered 0 fs) (next_id 0 (in_memory.entries before default_event_stream)) f)
        (sym e) (HasMessage-numbered 0 (in_memory.entries before default_event_stream) f),
  );
  message_entry = HasMessage-entry;
}
