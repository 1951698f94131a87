-- ===== src/Events/Status/Groups.antt =====
-- What `EnsureGroup` ensures.
use rate_limiter_as_a_servic.Limiter.{Error, errors_is, redis_nil}
use rate_limiter_as_a_servic.Base.{
  Option, none, some, ◌≡◌, true, false, Bool-cases, Option-cases, inl, inr, arith,
}
use rate_limiter_as_a_servic.Events.Status.{Texts, is_busy_group, ensure_group}

-- XGROUP CREATE with MKSTREAM. It answers BUSYGROUP only for a group that exists, and never the
-- empty answer that go-redis reports as `redis.Nil`.
pub record Groups (texts : Texts) : Type 1 where
  pub Redis : Type 0
  pub x_group_create : Redis → Option Error × Redis
  pub has_group : Redis → Type 0
  pub creates : (r : Redis) → (x_group_create r).0 ≡ none → has_group (x_group_create r).1
  pub busy :
      (r : Redis) (e : Error)
      → (x_group_create r).0 ≡ some e
      → is_busy_group texts e ≡ true
      → has_group (x_group_create r).1
  pub never_nil :
      (r : Redis) (e : Error) → (x_group_create r).0 ≡ some e → errors_is e redis_nil ≡ false

-- After `EnsureGroup` without an error the stream has the consumer group, whether it was created or
-- was there before, also if another worker has created it meanwhile.
pub ensure_group-has_group :
    (texts : Texts) (G : Groups texts) (r : G.Redis)
    → ensure_group texts (G.x_group_create r).0 ≡ none
    → G.has_group (G.x_group_create r).1
unfolding ensure_group
ensure_group-has_group texts G r ensured = elim (Option-cases (G.x_group_create r).0) [
  | inl created ↦ G.creates r created
  | inr (e, failed) ↦
      let not_nil = G.never_nil r e failed in
      elim (Bool-cases (is_busy_group texts e)) [
        | inl exists ↦ G.busy r e failed exists
        | inr other ↦ absurd (ground arith)
      ]
]
