-- ===== src/Lib.antt =====
-- The OpenZeppelin Monitor from the poll of a network to the matches that reach a trigger. The block
-- watcher polls each network for new blocks, hands every block to the handlers of blocks and triggers
-- in order, keeps track of what was missed, and recovers it. The handler of blocks runs the filter of
-- EVM blocks, with the expression language of its conditions, for the monitors of the network; the
-- handler of triggers drops the matches that a script of the monitor rejects. Further parts are the
-- configuration of the networks, the checks of monitors, and the transports that reach the nodes.
--
-- The program's parts and the files that model them:
-- - Prelude: Boolean tests, lists over the native numbers, dictionaries, `Result`, 64-bit words.
-- - Models: `Block` is src/models/blockchain (the block types and their numbers), `Network` is
--   src/models/core/network.rs with the secrets that hold a URL, `Parse` is the integer parsing of
--   Rust's standard library, and `NetworkConfig` is src/models/config/network_config.rs with
--   src/utils/cron_utils.rs: `validate`, `validate_uniqueness`, `get_recommended_past_blocks`.
-- - BlockWatcher: src/services/blockwatcher. `Tracker` is tracker.rs: its two maps behind mutexes are
--   fields of a record, and each method returns the new record. `Storage` is storage.rs: what the
--   methods do to a list of entries, the trait as a record of methods, `File` the file storage over a
--   dictionary of files, and `Memory` the contract for missed blocks.
--   `Recovery` is recovery.rs, `process_missed_blocks`, with what it is to do in
--   `Specification`. `Service` is `process_new_blocks` of service.rs,
--   and `Pipeline` the stage of it that puts the processed blocks in order. `Watchers` is the rest of
--   service.rs: the jobs of a network and the map of active watchers. `Client` is the trait of
--   src/services/blockchain/client.rs and the errors.
-- - Transport: src/services/blockchain/transports. `Http` is the endpoint manager and the constructor
--   of the HTTP client, `Ws` those of the WebSocket client; `Sorting` is the order of their URLs.
-- - Models also: `Monitor` is src/models/core/monitor.rs, `Trigger` src/models/core/trigger.rs, `Evm` the
--   transactions, receipts, logs and matches of src/models/blockchain/evm.
-- - Filter: src/services/filter. `Expression` is expression/ast.rs with the errors, `Expression.Json`
--   and `Expression.Evaluate` are expression/helpers.rs with the trait of evaluation.rs; `Semantics`
--   is the formula that an expression stands for. `Evm` is filters/evm: `Helpers` and the printing in
--   `Abi` are helpers.rs, `Kinds`, `Tuple` and `Evaluator` are evaluator.rs, `Typing` a typing
--   discipline for its conditions, and `Conditions`, `Calls`, `Events`, `Matching` and `Block` are filter.rs:
--   transaction conditions, function conditions, event conditions, the decision, and `filter_block`.
-- - Repositories: src/repositories/monitor.rs, the validation of monitors against networks, triggers and
--   script files: `validate_monitor_references`. `References` says when a set of monitors is in order.
-- - Trigger: src/services/trigger. The execution of triggers and the loading of scripts of service.rs
--   (`execute`, `load_scripts`), and script/validation.rs; `Execution` and `Scripts` hold the proofs.
-- - Bootstrap: src/bootstrap/mod.rs. The choice of active monitors, `block_handler` for what
--   `create_block_handler` returns, and `handled_matches` for the matches that the task of
--   `create_trigger_handler` hands on, with `run_trigger_filters`. `Monitoring` is a whole run of the
--   watcher over an EVM network with these handlers.
-- - Tests: runs on concrete data, which also show that the hypotheses of the theorems can hold.
--
-- How the parts interact: a run of `Service` asks the storage for the last processed block and the
-- client for new ones, resets and asks the tracker, stores the gaps, and gives the blocks to the
-- pipeline, which calls the tracker and the trigger handler. A run of `Recovery` takes the stored gaps
-- up again. Storage and client are records of functions on a state (`BlockStorage`,
-- `BlockChainClient`, `RotatingTransport`), so that a theorem holds for any of them, or for those that
-- keep a named contract. The filter evaluates an expression through the record `ConditionEvaluator`,
-- which the EVM evaluator fills. `Bootstrap` joins the parts: its handler of blocks takes the filter
-- over a client from the pool, for EVM `filter_block`, and its handler of triggers looks the scripts up
-- that `load_scripts` read at the start.
--
-- Concurrency: the handlers of a run may finish in any order, which is the parameter `finish_order`, a
-- permutation of the batch. Each method of the tracker and each rotation of endpoints holds its lock
-- while it runs, so that it is one step.
--
-- Numbers: block numbers are `u64` and counts of retries `u32`; the release profile turns overflow checks
-- off, so their sums wrap around. Fuel: `run_ready` gets the size of the buffer, of which each round takes one block;
-- `send_raw_request` has no bound in the code, and its fuel counts its rounds; `rotate_url` counts the
-- attempts that its configuration allows; `parse_elements` gets one more than the number of characters,
-- of which each round and each nested tuple takes one.
--
-- Parameters: serde_json, glob, cron, the job scheduler, reqwest and the file system (`Codec`, `glob`,
-- `Cron`, `JobScheduler`, `probe`, `Io`, `Serde`), the tables of Unicode (`Unicode`, `Platform`), and alloy's
-- numbers and contract interfaces with the parser of expressions (`Platform`, `Alloy`), whether the log
-- records the level `debug` (in `Platform`), paths and
-- script files (`Files`, `read_to_string`), the clients of the pool (`ClientPool`), the notification
-- service (`notify`) and the processes that run scripts (`run_script`), with their documented behaviour as fields where a proof uses it; the clock is an argument.
--
-- Not modelled: the filters of Stellar, Midnight and Solana; the parser of expressions, which stands on
-- the combinators of a third-party crate; the sending of notifications and the running of scripts, which
-- are requests and processes; `handle_match`, which builds the variables of a message; the clients of
-- the chains and `get_contract_specs`, which fetches contract interfaces over them; the loading of the
-- configuration files and their validation other than that of networks and of the references of
-- monitors; logging, metrics, and the delays between attempts. Of a shutdown the handlers model the case
-- in which it comes before their work is done, which then has no result.
pub mod Prelude
pub mod Models
pub mod BlockWatcher
pub mod Transport
pub mod Filter
pub mod Repositories
pub mod Trigger
pub mod Bootstrap
pub mod Tests
