-- ===== src/Lib.antt =====
-- Luxor: a verification library for the core of the server in this repository.
--
-- The program is an HTTP server template. `main` runs a command of src/bootstrap.rs, which loads the
-- configuration (src/config.rs and each part's settings), connects the shared state, starts the
-- background tasks (src/tasks.rs) and serves until it is stopped. A request passes the HTTPS check and
-- the security headers (src/server/mod.rs), the per-client limit (src/rate_limit.rs), the bearer token
-- (src/auth/jwt.rs) and the permission check (src/access.rs) before a handler runs. Logins keep
-- rotating refresh sessions (src/auth/refresh.rs, with the statements of src/db.rs). Short-lived
-- values, among them the tickets of WebSocket handshakes, live in a cache (src/cache.rs), and sockets
-- are admitted, fed and limited by src/realtime.rs behind src/handlers/realtime.rs. Handlers publish
-- events (src/events/mod.rs), which a bus in memory or Kafka (src/events/kafka.rs) hands to a
-- consumer, and enqueue jobs (src/queue.rs). What fails gives src/error.rs's errors.
--
-- The files:
-- - Base and its children: texts as lists of code points, maps as association lists, results, and
--   the parsing of Rust's integers, with their lemmas.
-- - Http: requests, responses and headers. Error: `AppError`, `into_response`,
--   `map_json_rejection`; Error/Disclosure: what a response says of the error.
-- - RateLimit: `MemoryRateLimiter::hit` (`hit_within`, `hit`), `decision`, `ceil_seconds`.
--   RateLimit/Enforce: `client_ip`, `enforce`. The limiter is an argument of the middleware, as it
--   is a trait in the source. RateLimit/Redis: `FIXED_WINDOW_SCRIPT` and `RedisRateLimiter::hit`;
--   RateLimit/Script, RateLimit/Agreement, RateLimit/Shared: the commands of Redis, and the two
--   limiters side by side.
-- - Cache: `MemoryCache`'s `get_json`, `put_json`, `invalidate`, `take_json`. Cache/View: what each
--   key shows, as the specification. Cache/Redis: `RedisCache`; Cache/Encoding, Cache/Commands,
--   Cache/Interchange: the commands of Redis, and the two caches side by side.
-- - Sessions: the table `auth_sessions` and its statements. Sessions/Rotation:
--   `issue_refresh_token`, `rotate_refresh_token`.
-- - Access: `Role`, `Permission`, `PermissionStore::require`.
-- - Realtime: `RealtimeHub`, `ConnectionSlot`, `SendQuota`. Realtime/Commands: `handle_command`,
--   `validate_text`. Realtime/Tickets: `issue_ticket`, `consume_ticket`. Realtime/Origin:
--   `origin_allowed`. Realtime/Connect: `connect` of src/handlers/realtime.rs. Realtime/Connection:
--   `run_connection`, one turn of its loop a step.
-- - Server: `enforce_https`, `apply_security_headers`, `enforce_request_timeout`.
-- - Config: `Env`, `parse_url`, `validate_origin`. Config/Features: `refuse_excluded_features`.
--   Config/Credentials: src/auth/settings.rs. Config/Quotas: the settings of src/rate_limit.rs and
--   src/realtime.rs. Config/Listener: src/server/settings.rs. Config/Kafka: the settings of
--   src/events/kafka.rs. Config/Sections: those of src/db.rs, src/cache.rs, src/queue.rs and
--   src/observability.rs. Config/Loaded: `Config::from_map`.
-- - Validation: `email` of src/validation.rs.
-- - Auth: `JwtService` and the extractor of `AuthUser`, of src/auth/jwt.rs.
-- - Accounts: the table `users` and its statements in src/db.rs. Accounts/Passwords:
--   src/auth/password.rs. Accounts/Strength, Accounts/Credentials: `register` and `login` of
--   src/services/auth.rs. Accounts/Handlers: src/handlers/auth.rs.
-- - I18n: `Locale`, the markup and the sitemap of src/i18n.rs. I18n/Message: `format_message`.
--   I18n/Pages: `render_page`. I18n/Negotiation: `negotiate` and `localized_root`.
-- - Assets: src/assets.rs.
-- - Events: `EventLog` of src/events/mod.rs. Events/Domain: the events of src/app/events.rs.
--   Events/Envelope, Events/Bus, Events/Consumer: the envelope, the bus in memory and `consume`.
--   Events/Kafka and its children: the producer, the decoding of a record, the consumer's loop and
--   the reading of the newest records, of src/events/kafka.rs.
-- - Jobs: src/queue.rs and src/app/jobs.rs. Tasks: src/tasks.rs. Traces: the span store of
--   src/observability.rs. Bootstrap: src/bootstrap.rs, as what is done in which order.
-- - Demo and its children: the handlers under src/demo/handlers/, and src/handlers/health.rs and
--   src/handlers/permissions.rs.
-- - Tests: the theorems at concrete inputs.
--
-- State is passed explicitly: what a lock or an atomic operation guards is one step, and the time
-- that the step reads is an argument. Times are natural numbers: nanoseconds for the limiter, the
-- cache and the sockets, whose clocks are monotonic, and milliseconds for Redis. Counters have no
-- bound, except the `u32` of a window, which saturates as in the source, and the 64-bit offset of
-- the bus in memory, which wraps. A 64-bit `usize` is assumed where one is parsed. Loops are
-- recursion on lists, but for two with fuel: printing a number in decimal, where one step more than
-- the number is enough for its digits; and the loops of `format_message` and `render_page`, which
-- have one step more than the text has characters, of which each round takes at least one. A loop
-- that waits (the sockets, the consumers, the pruning of sessions) is recursion on the list of what
-- happens to it.
--
-- Parameters stand for code of libraries: SHA-256, the JSON coding of a stored value or an event,
-- reading IP addresses and URLs, the encoding of access tokens, whether a text may be a header's
-- value, and the randomness of tokens, which comes as the value drawn; argon2, zxcvbn, gzip, the
-- serialisation of a dictionary, and reading and comparing floating-point weights; the commands of
-- Redis, with what its documentation says of them as hypotheses, and what Kafka's client answers.
-- Database statements and commits may fail, as arguments say.
--
-- Not modelled: the channel behind the sockets, and what other connections do to the counters while
-- one is served; the OAuth client (src/auth/oauth.rs), the temporary database of src/dev_postgres.rs,
-- and the exporters and log lines of src/observability.rs, which are calls of libraries; the tables of
-- routes and the pages of the demo (src/routes.rs, src/demo/console.rs)
-- and the sieve that the demo's page runs (wasm/src/lib.rs).
pub mod Base
pub mod Http
pub mod Error
pub mod RateLimit
pub mod Cache
pub mod Sessions
pub mod Access
pub mod Accounts
pub mod Realtime
pub mod Server
pub mod Config
pub mod Tasks
pub mod Jobs
pub mod Traces
pub mod Bootstrap
pub mod Demo
pub mod Validation
pub mod Events
pub mod Auth
pub mod I18n
pub mod Assets
mod Tests
