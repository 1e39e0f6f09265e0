-- ===== src/BlockWatcher/Service.antt =====
-- src/services/blockwatcher/service.rs: one run of the watcher, `process_new_blocks`. The handlers of
-- a run finish in some order, which the parameter `finish_order` picks; the trigger stage is
-- `Pipeline`. Logging is left out, as are the numbers in the messages of errors, and the clock that
-- the storage reads is `now`.
pub mod Run
pub mod Stopped
pub mod Range
use openzeppelin_monitor.Prelude.{
  ℕ, zero, suc, ◌+◌, ◌-◌, ◌≡◌, Bool, true, false, List, [], ◌∷◌, ◌++◌, Option, none, some, String,
  ltb, leb, ◌==◌, if◌then◌else◌, length, map, is_empty, max, ◌&&◌, ◌||◌, not,
}
use openzeppelin_monitor.Prelude.Word.{u64, saturating_sub}
use openzeppelin_monitor.Prelude.Result.{Result, ok, err}
use openzeppelin_monitor.Models.Block.{BlockType, ProcessedBlock, unwrap_or}
use openzeppelin_monitor.Models.Network.{Network, BlockRecoveryConfig}
use openzeppelin_monitor.Models.NetworkConfig.{Cron, get_recommended_past_blocks}
use openzeppelin_monitor.BlockWatcher.Client.{BlockChainClient, BlockWatcherError, with_context}
use openzeppelin_monitor.BlockWatcher.Storage.{StorageError, BlockStorage}
use openzeppelin_monitor.BlockWatcher.Tracker.{
  BlockTracker, BlockCheckResult, reset_expected_next, detect_missing_blocks,
}
use openzeppelin_monitor.BlockWatcher.Pipeline.{Stage, trigger_stage}

-- A run returns, or panics (a division by a block time of zero), which ends the process.
pub data Ended : Type 0 where
  returned : Result BlockWatcherError (Unit {0}) → Ended
  panicked : Ended

pub record Outcome (S C M : Type 0) : Type 0 where
  pub ended : Ended
  pub storage_state : S
  pub client_state : C
  pub block_tracker : BlockTracker
  pub triggered : List (ProcessedBlock M)
  pub reports : List BlockCheckResult

abbrev pub start_block_of : ℕ → ℕ → ℕ → ℕ
start_block_of last_processed_block latest_confirmed_block max_past_blocks =
    max (u64 (last_processed_block + 1)) (saturating_sub latest_confirmed_block max_past_blocks)

-- `network.max_past_blocks.unwrap_or(recommended_past_blocks)`, where the recommendation is computed
-- first in any case.
abbrev pub max_past_blocks_of : Cron → Network → Option ℕ
max_past_blocks_of cron network = elim (get_recommended_past_blocks cron network) [
  | none ↦ none
  | some recommended ↦ some (unwrap_or recommended network.max_past_blocks)
]

abbrev pub stores_blocks : Network → Bool
stores_blocks network = unwrap_or false network.store_blocks

abbrev pub recovery_enabled : Network → Bool
recovery_enabled network = elim network.recovery_config [ none ↦ false | some c ↦ c.enabled ]

module _ {S C M : Type 0} (cron : Cron) (block_storage : BlockStorage S)
    (rpc_client : BlockChainClient C) (block_handler : BlockType → Network → ProcessedBlock M)
    (finish_order : List (ProcessedBlock M) → List (ProcessedBlock M)) (now : ℕ)
    (network : Network) where
  -- `?` with an error: the run returns it.
  abbrev pub stop : BlockWatcherError → S → C → BlockTracker → Stage M → Outcome S C M
  stop e s c t stage = record {
    ended = returned (err e);
    storage_state = s;
    client_state = c;
    block_tracker = t;
    triggered = stage.triggered;
    reports = stage.reports;
  }

  -- Nothing was triggered yet.
  abbrev pub no_stage : BlockTracker → Stage M
  no_stage t = record {
    pending = [];
    next_block_number = 0;
    block_tracker = t;
    triggered = [];
    reports = [];
  }

  -- The last step: the number is saved.
  unfoldable pub save_last : ℕ → S → C → Stage M → Outcome S C M
  save_last latest_confirmed_block s c stage =
      let saved = block_storage.save_last_processed_block network.slug latest_confirmed_block s in
      record {
        ended = returned (with_context "Failed to save last processed block" saved.0);
        storage_state = saved.1;
        client_state = c;
        block_tracker = stage.block_tracker;
        triggered = stage.triggered;
        reports = stage.reports;
      }

  abbrev pub after_save : ℕ → Result StorageError (Unit {0}) → S → C → Stage M → Outcome S C M
  after_save latest_confirmed_block (ok _) s c stage = save_last latest_confirmed_block s c stage
  after_save latest_confirmed_block (err e) s c stage =
      stop (BlockWatcherError.other "Failed to save blocks") s c stage.block_tracker stage

  abbrev pub after_delete :
      ℕ → List BlockType → Result StorageError (Unit {0}) → S → C → Stage M → Outcome S C M
  after_delete latest_confirmed_block blocks (ok _) s c stage =
      let saved = block_storage.save_blocks now network.slug blocks s in
      after_save latest_confirmed_block saved.0 saved.1 c stage
  after_delete latest_confirmed_block blocks (err e) s c stage =
      stop (BlockWatcherError.other "Failed to delete old blocks") s c stage.block_tracker stage

  -- After the pipeline: the blocks are stored if the network wants it.
  unfoldable pub store : ℕ → List BlockType → S → C → Stage M → Outcome S C M
  store latest_confirmed_block blocks s c stage =
      let deleted = block_storage.delete_blocks network.slug s in
      if stores_blocks network
      then after_delete latest_confirmed_block blocks deleted.0 deleted.1 c stage
      else save_last latest_confirmed_block s c stage

  -- The pipeline: each block is handled, and the processed blocks reach the trigger stage in the order
  -- in which they are finished.
  abbrev pub arrivals : List BlockType → List (ProcessedBlock M)
  arrivals blocks = finish_order (map (λ b. block_handler b network) blocks)

  unfoldable pub pipeline : ℕ → List BlockType → BlockTracker → Stage M
  pipeline start_block blocks t = trigger_stage network start_block t (arrivals blocks)

  abbrev pub after_missed :
      ℕ → ℕ → List BlockType → Result StorageError (Unit {0}) → S → C → BlockTracker → Outcome S C M
  after_missed start_block latest_confirmed_block blocks (ok _) s c t =
      store latest_confirmed_block blocks s c (pipeline start_block blocks t)
  after_missed start_block latest_confirmed_block blocks (err e) s c t =
      stop (BlockWatcherError.other "Failed to save missed blocks") s c t (no_stage t)

  -- Missed blocks are saved if there are some and the network stores or recovers blocks.
  unfoldable pub save_missed : List ℕ → S → Result StorageError (Unit {0}) × S
  save_missed missed s =
      let saved = block_storage.save_missed_blocks now network.slug missed s in
      if not (is_empty missed) && (stores_blocks network || recovery_enabled network)
      then saved
      else (ok tt, s)

  -- The fetched blocks are looked through for gaps.
  abbrev pub after_fetch :
      ℕ → ℕ → Result String (List BlockType) → S → C → BlockTracker → Outcome S C M
  after_fetch start_block latest_confirmed_block (err e) s c t =
      stop (BlockWatcherError.other "Failed to get blocks") s c t (no_stage t)
  after_fetch start_block latest_confirmed_block (ok blocks) s c t =
      let reset = reset_expected_next t network start_block in
      let saved = save_missed (detect_missing_blocks blocks) s in
      after_missed start_block latest_confirmed_block blocks saved.0 saved.1 c reset

  -- A network without history starts with the latest block; no call is made when there is no new one.
  unfoldable pub fetch : ℕ → ℕ → ℕ → C → Result String (List BlockType) × C
  fetch last_processed_block latest_confirmed_block start_block c =
      let latest = rpc_client.get_blocks latest_confirmed_block none c in
      let range = rpc_client.get_blocks start_block (some latest_confirmed_block) c in
      if last_processed_block == 0
      then latest
      else if ltb last_processed_block latest_confirmed_block
      then range
      else (ok [], c)

  abbrev pub after_bound : ℕ → ℕ → Option ℕ → S → C → BlockTracker → Outcome S C M
  after_bound last_processed_block latest_confirmed_block none s c t =
      record (stop (BlockWatcherError.other "") s c t (no_stage t)) { ended = panicked }
  after_bound last_processed_block latest_confirmed_block (some max_past_blocks) s c t =
      let start_block =
        start_block_of last_processed_block latest_confirmed_block max_past_blocks in
      let fetched = fetch last_processed_block latest_confirmed_block start_block c in
      after_fetch start_block latest_confirmed_block fetched.0 s fetched.1 t

  abbrev pub after_latest : ℕ → Result String ℕ → S → C → BlockTracker → Outcome S C M
  after_latest last_processed_block (err e) s c t =
      stop (BlockWatcherError.other "Failed to get latest block number") s c t (no_stage t)
  after_latest last_processed_block (ok latest_block) s c t =
      after_bound last_processed_block (saturating_sub latest_block network.confirmation_blocks)
        (max_past_blocks_of cron network) s c t

  abbrev pub after_last : Result StorageError (Option ℕ) → S → C → BlockTracker → Outcome S C M
  after_last (err e) s c t =
      stop (BlockWatcherError.other "Failed to get last processed block") s c t (no_stage t)
  after_last (ok last) s c t =
      let latest = rpc_client.get_latest_block_number c in
      after_latest (unwrap_or 0 last) latest.0 s latest.1 t

  unfoldable pub process_new_blocks : S → C → BlockTracker → Outcome S C M
  process_new_blocks s c t =
      let last = block_storage.get_last_processed_block network.slug s in
      after_last last.0 last.1 c t
