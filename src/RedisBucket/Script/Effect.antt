-- ===== src/RedisBucket/Script/Effect.antt =====
-- What a run of the script leaves in Redis.
use rate_limiter_as_a_servic.Limiter.{Error, err, ok, plain}
use rate_limiter_as_a_servic.Floats.{Float64}
use rate_limiter_as_a_servic.RedisBucket.Server.{Redis, LuaText}
use rate_limiter_as_a_servic.RedisBucket.Script.{
  retry_after_ms, Arguments, written, event, now_ms, stored_tokens, covers, run_script, decided,
  flag, is_full, retry_after_ms, tokens_left, reset_at_ms,
}
use text.Mathlib.Text.{◌==◌ as str_eq}
use rate_limiter_as_a_servic.Base.{
  Bool, ◌≡◌, false, if◌then◌else◌, ◌++◌, ◌∷◌, [], ◌∙◌, Bool-cases, inl, ap, inr, List, ℤ, true, pos,
  ◌⊎◌, not, ◌&&◌, refl,
}

module _ (N : Float64) (T : LuaText N) (S : Redis) where
  open N use {F, of_int, to_int, floor, subtract}

  -- The entries once the script has written.
  pub entries-written :
      (r : S.R) (a : Arguments) (now tokens : F) (allowed : Bool)
      → str_eq a.bucket_key a.stream_key ≡ false
      → S.entries (written N T S r a now tokens allowed) a.stream_key ≡ (
          if allowed
          then S.entries r a.stream_key ++ event N T S a now tokens ∷ []
          else S.entries r a.stream_key)
  unfolding written
  entries-written r a now tokens allowed distinct =
      let stored = S.hset r a.bucket_key (T.tostring tokens) (T.tostring now) in
      let kept : S.entries (S.pexpire stored a.bucket_key a.ttl_ms) a.stream_key
          ≡ S.entries r a.stream_key =
        S.entries_pexpire stored a.bucket_key a.stream_key a.ttl_ms distinct
        ∙ S.entries_hset r a.bucket_key a.stream_key (T.tostring tokens) (T.tostring now)
            distinct in
      elim (Bool-cases allowed) [
        | inl grant ↦ rw grant (
            S.entries_xadd (S.pexpire stored a.bucket_key a.ttl_ms) a.stream_key
              (event N T S a now tokens)
            ∙ ap (λ es. es ++ event N T S a now tokens ∷ []) kept)
        | inr deny ↦ rw deny kept
      ]

  abbrev pub reply : Arguments → F → F → F → Bool → Bool → List ℤ
  reply a now tokens retry allowed backlog_full =
      flag N T S allowed
      ∷ to_int (floor tokens)
      ∷ to_int (reset_at_ms N T S a now tokens)
      ∷ to_int retry
      ∷ flag N T S backlog_full
      ∷ []

  -- The four ways in which the script ends.
  module _ (r : S.R) (a : Arguments) where
    abbrev pub now : F
    now = now_ms N T S r

    abbrev pub tokens : F
    tokens = stored_tokens N T S r a

    -- A key of another type, which an administrator may have made.
    abbrev pub IsRefused : Type 0
    IsRefused = (e : Error) × (run_script N T S r a ≡ (err e, r))

    abbrev pub IsFull : Type 0
    IsFull =
        (covers N T S a tokens ≡ true)
        × (is_full N T S r a ≡ true)
        × (run_script N T S r a ≡ (ok (reply a now tokens (of_int (pos 0)) false true), r))

    abbrev pub IsGranted : Type 0
    IsGranted =
        (covers N T S a tokens ≡ true)
        × (is_full N T S r a ≡ false)
        × (run_script N T S r a ≡ (
          ok (reply a now (subtract tokens (of_int a.cost)) (of_int (pos 0)) true false),
          written N T S r a now (subtract tokens (of_int a.cost)) true,
        ))

    abbrev pub IsDenied : Type 0
    IsDenied =
        (covers N T S a tokens ≡ false)
        × (run_script N T S r a ≡ (
          ok (reply a now tokens (retry_after_ms N T S a tokens) false false),
          written N T S r a now tokens false,
        ))

    pub run_script_cases : IsRefused ⊎ (IsFull ⊎ (IsGranted ⊎ IsDenied))
    unfolding run_script decided tokens_left
    run_script_cases =
        elim (Bool-cases (
          not (str_eq (S.key_type r a.bucket_key) "none")
          && not (str_eq (S.key_type r a.bucket_key) "hash"))) [
            | inl other ↦ inl (plain "rate-limit bucket key has an unexpected type", rw other refl)
            | inr bucket ↦
                elim (Bool-cases (
                  not (str_eq (S.key_type r a.stream_key) "none")
                  && not (str_eq (S.key_type r a.stream_key) "stream"))) [
                    | inl other ↦ inl (
                      plain "approved-request stream key has an unexpected type",
                      rw (bucket, other) refl,
                    )
                    | inr stream ↦ elim (Bool-cases (covers N T S a tokens)) [
                      | inr short ↦ inr (inr (inr (short, rw (bucket, stream, short) refl)))
                      | inl covered ↦ elim (Bool-cases (is_full N T S r a)) [
                        | inl full ↦
                            inr (inl (covered, full, rw (bucket, stream, covered, full) refl))
                        | inr room ↦
                            inr (inr (inl (covered, room, rw (bucket, stream, covered, room) refl)))
                      ]
                    ]
                  ]
          ]
