-- ===== src/Lib.antt =====
-- Verification of the decision logic of EgressAPIKEY, a desktop and headless shell around the Resin
-- proxy engine. The shell keeps its own documents ("whitebox": the desired state), asks Resin over
-- HTTP for the running state, and has background controllers that reconcile the two.
--
-- The parts, the files that model them and the code, by its path from the repository's root:
--
-- - Prelude: numbers with the source's saturation, lists, association lists for hash maps, texts as
--   code points and UTF-8 bytes, JSON values, stable sorting and sortedness, results, runs against an
--   environment, and lists with one entry per name.
-- - Throttle (crates/resin-core/src/throttle.rs): `clamp_delay`, `adaptive_interval`,
--   `backoff_interval`, `delay_minutes`. The logarithm is a parameter.
-- - Lightweight (src-tauri/src/lightweight.rs and the close handler of src-tauri/src/main.rs): the
--   three-state controller. Each method is an atomic step; spawned delay threads are sleepers, and an
--   event of the environment wakes one.
-- - Strategy (crates/resin-core/src/strategy.rs): the egress-selection vocabulary and its tolerant
--   parser. StrategyEngine (strategy_engine.rs beside it): the strategy document, the reading of
--   nodes, the A-class plan and the migration of legacy tokens on raw JSON.
-- - StrategyService (crates/resin-core/src/strategy_service.rs). The parent file has the two status
--   writes of the cascade, `record_subscription_phase` and `record_cascade_failure`. Validation is
--   `validate` with its parts; Bounds says what a valid document is, without the loops. Edits has
--   `store`, the three `set_platform_*` edits as one function of an edit, `rollback`,
--   `orchestration_mutate` and the migration of the file. Drift and Apply are `apply`, against an `Env`
--   of what the Resin client, the file and the clock answer after every call made so far. Reconcile is
--   the preview, the memory of port assertions and the pass. A refusal has the message of the source.
-- - SubscriptionPipeline (crates/resin-core/src/subscription_pipeline.rs): the queue of establish
--   events (the parent file), what a pass asks of its environment (Calls), the five steps (Steps), the
--   compensation (Compensation), one pass (Cascade), and the drain loop with its driver (Drain). A
--   pass runs against an `Api`: what the Resin client and the strategy service answer, as a function
--   of every call made so far, so that other tasks may change both between two calls. The drain loop
--   takes the pass as a parameter, with the events that other tasks enqueue while it runs.
-- - DefaultPort (the same file, from `suggest_free_entry_port` on): the entry port that a new platform
--   gets, and its release (DefaultPort.Release, with the rows in Rows and the endpoints in Targets),
--   against an `Api` of the same kind.
-- - Orchestration (crates/resin-core/src/orchestration.rs): the graded-autonomy controller. Verdicts
--   joins and aggregates probes, Candidates picks a region, Evaluate is one tick over the section,
--   Diff the shortened diff text. `f64` is the parameter `Float`, of which no law is assumed.
-- - Snapshot (crates/resin-core/src/snapshot.rs): the convergence phase, the drift memory, the
--   acknowledgement, the merges of strategies, ports and routes with the Resin runtime (Merges), and of
--   the subscriptions (Subscriptions). `to_lowercase` is a parameter.
-- - PortHealth (crates/resin-core/src/port_health.rs): the classification, one tick (`run_tick`) and
--   the watcher loop of `spawn_watcher_with`. Each round has the ports, the clock, the pause flag and
--   the answers of the probes from its environment; instants are nanoseconds. The order in which
--   `buffer_unordered` gives the results is a parameter; Reorders says that it gives each once.
-- - WhiteboxBackup (crates/resin-core/src/whitebox_backup.rs): the names of the copies, their listing,
--   `backup_before_write` and `rotate_backups` over a directory in memory.
-- - Audit (crates/resin-core/src/audit.rs): `AuditLog` over a disk in memory. The parent file has the
--   operations (`new`, `append`, `write_row`, `rotate_if_over`, `rotate`, `last_line_hash`), Lines the
--   lines of a file, Chain what an append that succeeds did. The digest and the JSON of a row are
--   parameters; IsCodec is what is asked of the JSON: one line, not blank, and `prev_hash` reads back.
-- - HeadlessSecurity (src-tauri/src/headless_security.rs, and `security_guard` of
--   src-tauri/src/headless_main.rs): the startup gate of the token, the host allowlist, `hostname_of`,
--   the token carriers, the comparison of tokens and the decision of the guard on a request. What is
--   parsed as an address, the entropy, and whether a trusted proxy relayed the request are parameters.
--
-- How they meet: SubscriptionPipeline writes the platform entries of StrategyEngine's document and
-- records its outcome by the calls that StrategyService answers; StrategyService plans with
-- StrategyEngine and compares with the rules of Snapshot.Merges, as the snapshot does; its document
-- holds the section of Orchestration, whose bounds it checks. Snapshot judges the same document by the
-- plan of StrategyEngine and the parser of Strategy; its convergence phase is what the terminal
-- criterion of the pipeline reads (Snapshot.Phases). Lightweight and PortHealth take their delays from
-- Throttle.
--
-- Machine integers: u64 and u32 operations that saturate are written with `min`; the retry instant, the
-- good-cycle counter, the node sums, the generations and the revision wrap (`% 2 ^ w`). The attempts
-- of an event are a u32 that stays at most five. The decimal numerals run on fuel: a number has fewer digits than its value plus one.
-- The port scan is given the 47546 candidates from 17990 to 65535, the search for a backup name its
-- 1000 attempts.
--
-- Not modelled: the stores themselves (SQLite, files, archives), the HTTP client and
-- servers, sockets, processes, the tray, the IPC commands and logging, which are either input and
-- output or left for an extension.
pub mod Prelude
pub mod Throttle
pub mod Lightweight
pub mod Orchestration
pub mod Strategy
pub mod StrategyEngine
pub mod StrategyService
pub mod SubscriptionPipeline
pub mod Snapshot
pub mod DefaultPort
pub mod PortHealth
pub mod WhiteboxBackup
pub mod Audit
pub mod HeadlessSecurity
