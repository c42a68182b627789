-- ===== src/Lib.antt =====
-- Verification library of Thermite: the core that takes in, groups, keeps and hands out errors.
--
-- The program. `crates/thermite-core` is a Sentry-compatible server. A request body is an envelope,
-- which `protocol/envelope.rs` splits into items; a session item goes to release health, a client
-- report to the outcome counters, and an event is checked against the quota, scrubbed, read and
-- grouped. A batch of OpenTelemetry logs is a second way in: `ingest/otlp` makes the same payloads of
-- its error records. New and regressed issues write rows to an outbox with two consumers, alert delivery
-- and triage, and the retention pass bounds what is stored. `crates/thermite-sdk` is the client.
--
-- The files, and the code that they model (paths under crates/thermite-core/src unless they are given
-- in full):
--   Prelude      names of the libraries, Boolean tests, lists, texts, results.
--   Strings      the string functions of Rust's library that the program calls, on code points.
--   Json         `serde_json::Value` and its accessors.
--   Credentials  Header: auth.rs; Dsn: `Config::dsn` of config.rs and `Dsn::parse` of
--                crates/thermite-sdk/src/dsn.rs.
--   Compression  protocol/compression.rs: `decode`, `decode_prefix`.
--   RateLimit    ingest/ratelimit.rs: `RateLimiter`, `check_at`, `exhausted_at`. The clock is an
--                argument, the map a function, and the counters wrap at 2^32.
--   Scrub        protocol/scrub.rs: `ScrubList`, `matches`, `scrub`.
--   Event        protocol/event.rs: Basic (times, levels, `exception.values`), Exception (types,
--                titles, frames, crash locations), Tags, Fingerprint.
--   Grouping     protocol/grouping.rs `group`, protocol/normalize.rs
--                `normalize_message_for_grouping`.
--   Envelope     protocol/envelope.rs: Cursor (`read_line`, `take`, `remaining`), Parser (`parse`).
--   Digest       ingest/digest.rs and ingest/releases.rs: Store (the tables, `resolve`), Steps (`digest`,
--                whose transaction is one function of the tables; the event id is an argument); Events and
--                Numbered: what its steps leave of the stored events and of the ids.
--   Outcomes     ingest/outcomes.rs `Counts`, protocol/client_report.rs, and
--                `record_client_report` of ingest/mod.rs.
--   Sessions     protocol/session.rs `Delta`, `Session`, `Aggregate`; the fold of ingest/sessions.rs;
--                Rollup: `parse` and `record` of that file; Lifecycle: crates/thermite-sdk/src/session.rs.
--   Ingest       ingest/mod.rs: Requests (a request, the state, `authorize`, `decode_body`), Endpoints
--                (`envelope_endpoint` with the arms of its loop, `store_endpoint`), and the rollup
--                statement of ingest/outcomes.rs.
--   Monitors     monitors/mod.rs and monitors/schedule.rs: Schedule (`Schedule::parse`, `next_after`),
--                Tables (`record_check_in`, `upsert_monitor`, `complete_run`), Sweep (`sweep`,
--                `failure_event`).
--   Otlp         ingest/otlp: Record and Convert (`to_event` of convert.rs), Proto and Json (the two readers),
--                Endpoint (`logs_endpoint` of mod.rs).
--   Sdk          crates/thermite-sdk/src/transport/http.rs: Transport (the queue and its thread as a step
--                relation), Fifo (the queue that it implements); Event, Scope and Frame: event.rs,
--                scope.rs and envelope.rs of that crate, with the part of `Client::capture` in lib.rs
--                that fills in an event.
--   Issues       api/issues.rs and api/activity.rs: Status (`update_status`, `record_status`), Listing
--                (`for_project` up to the page of rows); History: these and the digest as steps.
--   Outbox       Row: a row of `notifications`; Alerts: alerts.rs; Triage: api/triage.rs. An SQL
--                statement is a function of the table, which stands in the order of the select.
--   Retention    retention.rs: Policy (`from_env`), Batches (the loop of deletes), Sweep (`sweep`).
--   Tests        runs at concrete inputs.
--
-- Bounds and fuel. `Envelope.Parser.parse` runs on the length of its input plus one: every round of
-- the loop reads at least a byte; so does
-- the walk over the fields of a protobuf body. A loop of deletes runs on fuel; every round but the last deletes a
-- full, positive batch, so more fuel than there are rows is enough. All other loops are
-- structural. Texts are lists of code points. Instants are nanoseconds since the first one that chrono
-- represents, in ℕ; the outbox, retention and the limiter count in seconds. Where chrono panics, a call
-- of it is `panics`, or `none` for the cutoff of a retention pass; a backoff that no interval can hold
-- makes `record_failure` fail. The limiter reads the clock at every check of a request, and the readings
-- are a function of their number; a retention pass has a reading for each project, one for the rollups
-- and the database's. A sweep of the monitors reads it once here. An i64 that the program clamps or only counts up is in ℕ.
--
-- Parameters. Date parsing (`TimeParser`), header decoding (`Codec`), the regular expressions and
-- SHA-256 (`Engine`), the process environment (`Environment`), the decompressing readers (`Decoders`),
-- the serializer of the client (`Serializer`), time zones, cron expressions and chrono's bounds
-- (`Calendar`), prost's readers (`Prost`), the reading of JSON numbers (`Numbers`), the decoding of session items (`SessionCodec`), and the other decoders that the endpoints call, with URL and UUID parsing
-- (`Libraries`), are arguments.
--
-- Not modelled: other database errors and the HTTP layer, an outcome counter beyond 2^63, the rest of the
-- read API and of the SDK, and the web interface in src/.
pub mod Prelude
pub mod RateLimit
pub mod Strings
pub mod Issues
pub mod Json
pub mod Scrub
pub mod Event
pub mod Grouping
pub mod Envelope
pub mod Digest
pub mod Outcomes
pub mod Sdk
pub mod Sessions
pub mod Ingest
pub mod Monitors
pub mod Otlp
pub mod Outbox
pub mod Retention
pub mod Compression
pub mod Credentials
pub mod Tests
