-- ===== src/Api/Service/Kept.antt =====
-- A check that is answered by 200, and the worker ever after: the stream that the script appends to
-- is the one that the worker reads.
use rate_limiter_as_a_servic.Limiter.{Error, Result, Decision, ok}
use rate_limiter_as_a_servic.Clock.{Duration}
use rate_limiter_as_a_servic.Base.{
  ℤ, String, Option, ◌≡◌, ◌∷◌, [], ◌++◌, true, some, inl, sym, ◌∙◌, subst, List,
}
use rate_limiter_as_a_servic.Floats.{Float64}
use rate_limiter_as_a_servic.Events.Decode.{approval_request}
use rate_limiter_as_a_servic.Events.Services.{Database, Streams}
use rate_limiter_as_a_servic.Events.Processor.Durable.{Happens, IsSafe, event_never_lost}
use rate_limiter_as_a_servic.RedisBucket.Server.{Redis, LuaText, Fields}
use rate_limiter_as_a_servic.RedisBucket.Keys.{IsEncoding}
use rate_limiter_as_a_servic.RedisBucket.Limiter.{default_event_stream}
use rate_limiter_as_a_servic.RedisBucket.Limiter.Buckets.{Reach}
use rate_limiter_as_a_servic.RedisBucket.Recorded.{IsClock, Reads}
use rate_limiter_as_a_servic.RedisBucket.Recorded.Approved.{row_of}
use rate_limiter_as_a_servic.Breaker.{CircuitBreakerLimiter}
use rate_limiter_as_a_servic.Config.{Environment}
use rate_limiter_as_a_servic.Config.Api.{Config, load_config}
use rate_limiter_as_a_servic.Api.Http.{CheckRateLimitPayload, RequestBody, Header, new_writer}
use rate_limiter_as_a_servic.Api.Check.{Handled}
use rate_limiter_as_a_servic.Api.Check.Answers.{Accepts, key_of, sent_body}
use rate_limiter_as_a_servic.Api.Service.{Passage, Backend, check, rate_limiter}
use rate_limiter_as_a_servic.Api.Service.Shipped.{
  stream-limiter_of, limiter_of, check_granted-row_shipped,
}

-- One Redis as the script and as the worker see it. `has_message` tells that the stream has the entry
-- with that ID and those fields; XADD gives the entry that it appends an ID.
pub record SameRedis (S : Redis) (R : Streams) (stream : String) : Type 1 where
  pub seen : S.R → R.Redis
  pub has_message : R.Redis → String → Fields → Type 0
  pub appended :
      (before after : S.R) (f : Fields)
      → S.entries after stream ≡ S.entries before stream ++ f ∷ []
      → (id : String) × has_message (seen after) id f
  pub message_entry :
      (redis : R.Redis) (id : String) (f : Fields) → has_message redis id f → R.has_entry redis id

last-injective : {A : Type 0} (xs : List A) (a b : A) → xs ++ a ∷ [] ≡ xs ++ b ∷ [] → a ≡ b
last-injective [] a b e = cc
last-injective (x ∷ xs) a b e =
    let rest : xs ++ a ∷ [] ≡ xs ++ b ∷ [] = cc in last-injective xs a b rest

module _ (N : Float64) (T : LuaText N) (S : Redis) (encode : String → String)
    (parse_int : String → Result ℤ) (D : Database) (R : Streams)
    (same : SameRedis S R default_event_stream) (env : Environment) (cfg : Config)
    (validate_struct : CheckRateLimitPayload → Option Error) (open_timeout : Duration)
    (passage : Passage) (breaker : CircuitBreakerLimiter) (r : S.R) (broken : Option Error)
    (body : RequestBody) where
  abbrev pub outcome : Handled × Backend N T S encode (limiter_of cfg)
  outcome =
      check N T S encode (limiter_of cfg) validate_struct open_timeout passage (breaker, r)
        (new_writer broken) body

  -- What the worker sees once the check is answered.
  abbrev pub left_for_worker : R.Redis
  left_for_worker = same.seen (outcome.1).1

  -- The limiter's stream is the default one.
  at_default :
      (f : Fields)
      → cfg.redis_limiter_cfg.event_stream ≡ default_event_stream
      → S.entries (outcome.1).1 (limiter_of cfg).event_stream
        ≡ S.entries r (limiter_of cfg).event_stream ++ f ∷ []
      → S.entries (outcome.1).1 default_event_stream ≡ S.entries r default_event_stream ++ f ∷ []
  at_default f stream appended =
      subst (λ s. S.entries (outcome.1).1 s ≡ S.entries r s ++ f ∷ [])
        (stream-limiter_of cfg stream) appended

  -- The promise of the whole service, as it is shipped: let the configuration load, with the default
  -- stream, the keys be encoded without a colon and apart, `ParseInt` read the integers that Lua
  -- writes, and the worker read the stream that the script appends to. If a check is answered by 200,
  -- in a state of Redis that the limiter's calls lead to and at a time before the year 5138, then its
  -- body was accepted, and the service's limiter has decided on the body's key and cost, has allowed it,
  -- and has left the state that the check leaves. The answer's body is that decision, unless the
  -- connection is gone. The event is in the stream: the worker decodes it to the row of the body's
  -- client, resource and cost, of the time of Redis and of the remaining tokens of the decision. And
  -- whatever workers and approvals do then, and whatever fails, the event's entry is in the stream or
  -- its row in the table.
  pub check_granted_kept :
      (header : Header) (db : D.Db) (y : D.Db × R.Redis)
      → load_config env ≡ ok cfg
      → cfg.redis_limiter_cfg.event_stream ≡ default_event_stream
      → Reads N T S parse_int
      → IsEncoding encode
      → Reach N T S encode (limiter_of cfg) r
      → IsClock (S.time r)
      → outcome.0.writer.sent ≡ some (200, header)
      → Happens parse_int D R (db, left_for_worker) y
      → (payload : CheckRateLimitPayload) × (dec : Decision) × (id : String) × (f : Fields)
        × Accepts validate_struct body payload
        × (dec.allowed ≡ true)
        × (rate_limiter N T S encode
              (limiter_of cfg)
              passage
              (breaker, r)
              (key_of payload)
              payload.cost
            ≡ (ok dec, outcome.1))
        × (outcome.0.writer.body ≡ sent_body broken dec)
        × same.has_message left_for_worker id f
        × (approval_request parse_int (record { id = id; values = f })
            ≡ ok (
                row_of N T S encode parse_int
                  (limiter_of cfg)
                  r
                  id
                  (key_of payload)
                  payload.cost
                  dec))
        × IsSafe parse_int D R id y.0 y.1
  check_granted_kept header db y loads stream reads encoding reach clock sent later =
      let row =
        check_granted-row_shipped N T S encode parse_int env cfg loads stream reads encoding
          validate_struct open_timeout passage breaker r broken body header in
      let (_, _, first, _, _, _, _, appended_first, _) = row "" reach clock sent in
      let (id, message) =
        same.appended r (outcome.1).1 first (at_default first stream appended_first) in
      let (payload, dec, f, accepted, allowed, decided, answered, appended_f, decodes) =
        row id reach clock sent in
      let one : first ≡ f = last-injective _ first f (sym appended_first ∙ appended_f) in
      let there = subst (same.has_message left_for_worker id) one message in
      (
        payload,
        dec,
        id,
        f,
        accepted,
        allowed,
        decided,
        answered,
        there,
        decodes,
        event_never_lost parse_int D R db left_for_worker y.0 y.1 id later
            (inl (same.message_entry left_for_worker id f there)),
      )
