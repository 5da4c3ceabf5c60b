-- ===== src/Lib.antt =====
-- SecurePrompt: an OpenAI-compatible gateway that redacts what it detects in a prompt before a
-- provider sees it, and puts it back in the answer.
--
-- A request goes through detection, the policy engine (secureprompt-api/src/policy), which
-- redacts or transforms the text through the vault (secureprompt-api/src/vault), the provider,
-- and the restoring of placeholders in the answer, which arrives in deltas when it is streamed.
--
-- Files:
-- - Prelude, Text, Map: shared lists and tests; Rust strings as lists of UTF-8 bytes with
--   `find`, `replace`, slices and character boundaries; `HashMap` as an association list whose
--   order stands for the order of iteration.
-- - Types: secureprompt-common/src/types.rs and errors.rs. A call ends by a value, an `ApiError`
--   or a panic.
-- - Vault: secureprompt-api/src/vault/redaction.rs. `apply_redaction` is
--   `Vault.apply_redaction`, its loop body `redact_one`; `apply_transform` is in
--   Vault/Transform.
-- - Streaming: `PlaceholderStreamer` (`push`, `flush`) of
--   secureprompt-api/src/http/streaming.rs. Its loop `drain` takes fuel; `push` gives it one
--   more than the length of the pending text, which every turn shortens.
--   `placeholder_safe_chunks` is in Streaming/Batch.
-- - RateLimit: `RateLimiter::check` and `enforce_rate_limit` of
--   secureprompt-api/src/http/middleware/rate_limit.rs, the lock held throughout, as functions
--   from a limiter and an instant.
-- - Budget: `budget_check` and `pre_check_budget` of
--   secureprompt-api/src/http/middleware/rate_limit.rs, with `incr_and_get` of
--   secureprompt-api/src/redis/mod.rs; the Redis commands are a parameter (`Redis`), the budget
--   row and the keys are arguments.
-- - License: secureprompt-api/src/license, with the gate of http/middleware/license_gate.rs and
--   the handlers of http/routes/license.rs. License/State is `LicenseState`, License/Token the
--   verification, License/Revocation the poller, in two halves between which other tasks may
--   run; License/Steps is the relation of all that changes the licence, by whole handlers and by
--   the halves between which they await the database. The clock is an argument.
-- - UrlGuard: secureprompt-api/src/security/url_guard.rs. The URL parser and the resolver are
--   the record `Net`; an address is its octets or its segments.
-- - Router: `ConfigCache` and `resolve_model` of secureprompt-api/src/http/model_router.rs; an
--   instant is a number of nanoseconds.
-- - Roles: `UserRole` and its privilege ladder.
-- - AuditExport: secureprompt-common/src/audit_export.rs. `build_manifest` is in
--   AuditExport/Build, `verify_export` in AuditExport/Verify, the chain in AuditExport/Chain,
--   `retention_for` in AuditExport/Retention. A page is its bytes; `Library` holds SHA-256, hex,
--   base64, Ed25519 and JSON, `HashLaws`, `SignLaws` and `JsonLaws` what is documented of them,
--   `Prose` the fixed texts of the manifest.
-- - Sidecar: secureprompt-api/src/ml_sidecar/client.rs. Sidecar/Breaker is `AtomicCircuit`,
--   Sidecar/Split `split_for_ner`, whose loop takes the number of characters as fuel,
--   Sidecar/Detect `detect_if_available`, whose span offsets wrap as they do in a release build,
--   Sidecar/Checks the injection and rag checks. A text is the list of its characters; what
--   happens around a call is a `Turn`.
-- - Session: `require` of secureprompt-api/src/http/middleware/jwt_auth.rs with its degraded
--   path; what Redis, Postgres and the clock answer around a request is an `Around`.
-- - Pipeline: `prepare` of secureprompt-api/src/pipeline/service.rs, from the messages to what
--   goes on to the provider. Pipeline/Coverage is the gate on the ML sidecar's coverage (also
--   http/sidecar_coverage.rs), Pipeline/Secure the secure mode and the safety net,
--   Pipeline/Markers the markers of scanned files, whose loop takes the length of the text as
--   fuel, Pipeline/Audit the message that the audit row shows. What the calls of `prepare`
--   answer is the record `Calls`.
-- - Policy: secureprompt-api/src/policy/engine.rs. `rule_matches` and `matching_detections` are
--   in Policy/Conditions, `evaluate` in Policy/Engine.
--
-- Numbers: counters are `u32` with their wrap written out; offsets are `usize` values below
-- 2^64. Floats are exact multiples of 2^-1074. Parameters of the model: Unicode case mapping
-- (`Casing`), `serde_json` (`Json`) and `regex` (`Regex`); the Redis commands (`Redis`); the
-- vendor's licence library (`Vendor`, `Assertions`) and what a tick of the poller asks
-- (`PollerDeps`); the URL parser and the resolver of names (`Net`); SHA-256, hex, base64,
-- Ed25519 and JSON for the audit export (`Library`) and its fixed prose (`Prose`); the answers
-- of the ML sidecar (`Turn`), of Redis and of Postgres (`Around`); the rows that the database
-- lists are arguments.
--
-- Not modelled: the response side of the chat pipeline, the detectors and the merging of what
-- they find, the audit rows, API keys and the second factor, the rendering of audit pages, the
-- worker tasks, HTTP, SQL, logging and metrics.
pub mod Prelude
pub mod Text
pub mod Map
pub mod Types
pub mod Vault
pub mod Policy
pub mod Streaming
pub mod RateLimit
pub mod Budget
pub mod Roles
pub mod License
pub mod Pipeline
pub mod UrlGuard
pub mod Router
pub mod AuditExport
pub mod Sidecar
pub mod Session
