-- ===== src/Lib.antt =====
-- A rate limiter as a service: limiters behind one interface (`ratelimiter.Limiter`), a circuit
-- breaker around the limiter of the API, and the state each of them keeps. A check comes in by HTTP,
-- goes through the breaker to a Lua script in Redis, which appends an event for each approval to a
-- stream; the worker moves the events to PostgreSQL, from which the API answers its reports.
--
-- Limiter.antt       internal/ratelimiter/ratelimiter.go: Key, Policy, Decision, the sentinel errors;
--                    the check of a policy table, which every in-memory limiter writes out alike
--                    (Limiter/Policies.antt has its lemmas).
-- FixedWindow.antt   internal/ratelimiter/fixed-window.go: `allow` is Allow, `decide` its part under
--                    the mutex, `window_for` is windowFor.
-- SlidingLog.antt    internal/ratelimiter/sliding-log.go: `allow` is Allow, `decide` its part under the
--                    mutex, `active_log` is activeLog with its loop `drop_expired`,
--                    `next_availability` is nextAvailability with its loop `release_from`.
-- TokenBucket.antt   internal/ratelimiter/token-bucket.go: `allow` is Allow, `decide` its part under the
--                    mutex, `refilled_bucket` is refilledBucket, `refill` its sum.
--                    TokenBucket/Reference.antt tells a bucket from the history alone.
-- RedisBucket.antt   internal/ratelimiter/redis-token-bucket.go: RedisBucket/Script.antt is the Lua
--                    script, run as one step (`run_script`), and RedisBucket/Limiter.antt the limiter
--                    around it. RedisBucket/Server.antt has the interface of Redis that they take:
--                    operations and their documented laws.
--                    RedisBucket/Recorded.antt joins the limiter with the worker's decoder.
-- Floats.antt        The interface of double-precision numbers that both token buckets take.
-- Breaker.antt       internal/ratelimiter/circuit-breaker.go: `start_request`, `record_success`,
--                    `record_failure`, `cancel_probe`, `open_circuit` and `ready` are the methods that
--                    hold the mutex, `finish` is the end of Allow, and `allow` the whole of it around
--                    a limiter that is its argument. Breaker/Calls.antt lets calls overlap.
-- Api.antt           cmd/api: its endpoints. Api/Http.antt is json.go and errors.go over a model of
--                    http.ResponseWriter, Api/Metrics.antt is metrics.go, and Api/Check.antt is
--                    check.go: `check_rate_limit` is the handler's body around a limiter that is its
--                    argument, and `check_rate_limit_handler` adds what it defers.
--                    Api/Analytics.antt is analytics.go, Api/Health.antt is health.go with the
--                    readiness check of redis.go, and Api/Start.antt is main.go with the end of `run`.
--                    Api/Service.antt joins the handler, the breaker and the Redis limiter as main.go
--                    does.
-- Events.antt        internal/events: Events/Decode.antt is event.go, Events/Processor.antt is persist.go
--                    and processor.go, Events/Status.antt is status.go with EnsureGroup.
--                    Events/Services.antt has the interfaces of PostgreSQL and Redis
--                    that they take: operations and their documented laws.
-- Worker.antt        cmd/worker: Worker/Loop.antt is worker.go, a step for each turn of the loop of
--                    `process`: what `select` finds ready, and which case it takes of two, is the
--                    turn's. Worker/Monitor.antt is monitor.go, a step for each tick,
--                    Worker/Health.antt is health.go, Worker/Config.antt is config.go, and
--                    Worker/Start.antt is main.go with the end of `run`.
-- Config.antt        internal/env/env.go and cmd/api/config.go: Config/Redis.antt is loadRedisConfig, which
--                    cmd/worker shares but for one default, and Config/Api.antt is loadConfig.
--                    Config/Agreement.antt compares what the API and the worker read.
-- Store.antt         internal/store: what the clients of Redis and PostgreSQL are given.
--                    Config/Redis/Client.antt is newRedisClient.
-- History.antt       Requests and answers in the order of the mutex, the independent description that
--                    the in-memory limiters are compared with.
-- Clock.antt         What the code uses of Go's package time: instants and durations are integers of
--                    nanoseconds; Sub saturates and Milliseconds truncates as Go's do.
-- Base.antt          Integers over the native naturals, 64-bit words with their wrap-around,
--                    association lists with decidable keys.
--
-- State is passed explicitly: a method takes the limiter and returns it. A Go map is an association
-- list whose missing keys read as the zero value. A clock reading is an argument of each call. A
-- method that holds a mutex is one step, and a history is a list of such steps, newest first. An int
-- is a 64-bit word: sums and differences wrap around, and the theorems show that valid policies keep
-- them in range. Instants are not bounded, as Go's time.Time has a far wider range than a Duration.
-- An `error` is a sentinel, a text, or a text around an error; `errors_is` is errors.Is on these.
-- The validator of request bodies, the parsers of strconv and time, the functions of strings, the
-- environment, the encoding of keys in base 64, PostgreSQL, Redis and the doubles of the token buckets
-- are parameters; a service may fail at any call. Texts of numbers and times in an HTTP answer are kept
-- as the numbers and times. A record of laws has a concrete instance for the tests: Floats/Whole.antt,
-- RedisBucket/Memory.antt, RedisBucket/Encoding.antt and Events/Memory.antt.
-- All loops are structural recursion; no definition takes fuel.
--
-- Not modelled: the routes of chi and the settings of the HTTP servers, which are configuration; logs
-- other than the worker's lines; the wait before the worker's loop retries, which changes nothing; the
-- generated queries of internal/database, which run in PostgreSQL. HTTP, JSON, Prometheus, Redis and
-- PostgreSQL are libraries or services.
pub mod Base
pub mod Clock
pub mod Limiter
pub mod Floats
pub mod History
pub mod FixedWindow
pub mod SlidingLog
pub mod TokenBucket
pub mod RedisBucket
pub mod Breaker
pub mod Api
pub mod Events
pub mod Worker
pub mod Config
pub mod Store
