-- ===== src/Lib.antt =====
-- Checkgate, a feature flag service: the flag evaluation core and the server logic around it.
--
-- The program. A flag is evaluated in the process of the client, over an in-memory store that the
-- server fills by a stream of changes. `core` holds the data of a flag, the store and the evaluator;
-- every SDK calls it. `server` keeps flags and segments in a database, expands segment references in
-- a flag before it is stored or sent, and decides who may read and change what.
--
-- The files.
-- - Common: names of the libraries, Boolean tests, lists, association lists. A `HashMap` of the source
--   is an association list (`lookup` is `get`).
-- - Text: the operations on `str` that the evaluator calls, over characters, and the UTF-8 bytes.
-- - External: what the program takes from elsewhere, as one record: `dashmap` with the laws of a map,
--   `murmur3` with values below 2 ^ 32, `serde_json::Value` with its equality, and `f64` with its parser
--   and `partial_cmp`. External/Concrete is an instance, for the examples.
-- - Types: the structs and enums of core/src/evaluator.rs. `u32` and `u64` are numbers; where the code
--   saturates, so does the model, at the width written out.
-- - Store: `FlagStore` of core/src/store.rs. The `Arc`s share one map; a write returns the new contents.
-- - Evaluator: core/src/evaluator.rs and core/src/hashing.rs. Rules has `rule_matches` and
--   `numeric_cmp`, Variants has `pick_weighted_variant`, Evaluate has `evaluate`, `evaluate_variant`,
--   `evaluate_variant_at_depth` and `prerequisites_satisfied`. The recursion through prerequisites takes
--   fuel `max_prerequisite_depth - depth`, which is enough since the check of prerequisites stops at that
--   depth (Depth). A `usize` is taken as 64 bits wide.
-- - Segments: `expand_flag_with_segments` of server/src/api/segments.rs. Segments/Handlers has its handlers,
--   over the tables of segments and flags; the containment test of the database on the rules of a flag is
--   a parameter. The list of segments is not modelled.
-- - Status: the results of the server's functions, with the HTTP status of an error, and `Fetch`, what a
--   query of at most one row returns.
-- - Auth: server/src/auth.rs and the access checks of server/src/api/flags.rs. Routes has
--   `sdk_key_route_allowed`, Require `require_auth` and what it calls, Roles `require_admin`,
--   `require_editor` and `check_env_role`, Access `check_env_access` and `check_ingest_access`. A request is
--   what these functions read of it; the rows with an id, a key or the hash of a token, the clocks of the
--   process and of the database, `SDK_KEY`, SHA-256 and the comparison of bytes are the fields of `AuthWorld`. The middleware's state, the extensions of the
--   request, is the record `AuthContext`, empty before `require_auth`.
-- - Sdk: the bindings of the core. Ffi is sdks/react-native/src/lib.rs (sdks/flutter/dart/rust/src/lib.rs
--   has the same functions), Node sdks/nodejs/src/lib.rs, Web sdks/web/src/lib.rs. The global store is
--   passed in and returned, a pointer that may be null is an `Option`, and Serde is the record `Serde`.
-- - Server: the tables of flags and change requests and the sequences of their keys and revisions; a handler
--   returns its response, the tables after it, and what it emits after the commit (audit log, store,
--   channel of updates, notifications) as a list. An error before the commit leaves the tables as they
--   were. Failures of the database are not modelled. `FlagJson` is `serde_json` at the types of the
--   handlers; a JSON object is the list of its fields. Server/Concrete is an instance.
-- - Flags: server/src/api/flags.rs: its validation of keys and bounds of pages; Flags/Patch has
--   `merge_and_validate`, Flags/Write `apply_patch_in_tx`, `emit_patch` and `patch_flag`, Flags/Handlers
--   `create_flag`, `delete_flag` and `promote_flag`. Reading, archiving and publication are not modelled.
-- - Changes: server/src/api/change_requests.rs, its approval, rejection and cancellation.
-- - Scheduler: server/src/scheduler.rs. A round (`step`) is one transaction of a worker, with the clock, the
--   rows that others have locked and the query that fails as its input; the rounds of all workers take effect
--   one after another, since each claims its job by a row lock. The loop has 50 rounds, as in the source.
--   `attempt` returns the tables of the open transaction, which keep a patch that was written before a later
--   query failed; `rollback_to` goes back to the savepoint, and a transaction that is not committed leaves none.
--   Scheduler/Api is server/src/api/scheduled.rs. Ids are numbers, times are whole seconds since 1970.
-- - Notify: the notifications of server/src/notify.rs. The module itself has the events and the urls of
--   server/src/api/integrations.rs, Notify/Format the messages of server/src/integrations.rs,
--   Notify/Deliver the deliveries of both sinks (server/src/webhook_fire.rs is the other), Notify/Api the
--   handlers of server/src/api/integrations.rs, Notify/Api/Webhooks those of server/src/api/webhooks.rs. What a post is answered is a
--   function of the post and the attempt; HMAC-SHA256 and `serde_json` (`Message`, with the laws `IsJson`) are
--   parameters. `fire_webhooks` and `fire_integrations` spawn the deliveries, which are taken one by one.
-- - Session: server/src/api/session.rs. The tables of users, failed logins, settings and projects are the
--   record `Accounts`; the clock is an argument. Argon2 and `to_lowercase` are the record `Passwords`. The
--   calls are taken one after another: concurrent logins and setups are not modelled. Session/Setup has
--   `setup_complete`.
-- - Stream: server/src/stream.rs. The messages of server/src/api/flags.rs (`upsert_message`, `delete_message`,
--   `RESYNC_MESSAGE`) are the data type `Update`, what the channel yields is a list, and the tables that the
--   bootstrap reads in one transaction are the record `Snapshot`. Stream/Held has a client that applies the
--   updates to its store as they come, Stream/Rows the rows of the queries. The register of connected clients and the
--   publication through Redis are not modelled.
--
-- Not modelled. In server/src/api: users.rs and tokens.rs, projects.rs, environments.rs and keys.rs,
-- experiments.rs, events.rs and impressions.rs (they aggregate in SQL and compute statistics on floats),
-- audit.rs and health.rs. rate_limit.rs configures the governor crate, and main.rs and state.rs wire the
-- parts together. The dashboard, cli, ssr, edge and integrations are written in other languages.
mod Common
pub mod Text
pub mod External
pub mod Types
pub mod Status
pub mod Auth
pub mod Store
pub mod Evaluator
pub mod Segments
pub mod Sdk
pub mod Server
pub mod Flags
pub mod Changes
pub mod Scheduler
pub mod Notify
pub mod Session
pub mod Stream
