-- ===== src/BlockWatcher/Recovery.antt =====
-- src/services/blockwatcher/recovery.rs: the recovery job, over any block storage and any client. The
-- run keeps its progress beside the state of the storage; `triggered` is the sequence of calls of the
-- trigger handler. Logging and the delay between attempts are left out, and the clock that the
-- storage reads is `now` for the whole run.
pub mod Counts
pub mod Refinement
pub mod Answers
pub mod Selection
pub mod Specification
pub mod Entries
use openzeppelin_monitor.Prelude.{
  ℕ, zero, suc, ◌+◌, ◌≡◌, Bool, true, false, List, [], ◌∷◌, ◌++◌, Option, none, some, String, ltb,
  leb, ◌==◌, if◌then◌else◌, length, take, is_empty,
}
use openzeppelin_monitor.Prelude.Word.{u32, saturating_sub}
use openzeppelin_monitor.Prelude.Result.{Result, ok, err}
use openzeppelin_monitor.Models.Block.{BlockType, ProcessedBlock}
use openzeppelin_monitor.Models.Network.{Network, BlockRecoveryConfig}
use openzeppelin_monitor.BlockWatcher.Client.{BlockChainClient, BlockWatcherError, with_context}
use openzeppelin_monitor.BlockWatcher.Storage.{
  MissedBlockStatus, pending, recovering, recovered, failed, MissedBlockEntry, StorageError,
  BlockStorage,
}

pub record RecoveryResult : Type 0 where
  pub attempted : ℕ
  pub recovered : ℕ
  pub failed : ℕ
  pub pruned : ℕ

pub record Progress (C M : Type 0) : Type 0 where
  pub result : RecoveryResult
  pub recovered_blocks : List ℕ
  pub client_state : C
  pub triggered : List (ProcessedBlock M)

-- `sort_by_key`, which is stable: an entry goes before the first one with a larger number, and after
-- those with its own that stood before it.
unfoldable pub insert_by_number : MissedBlockEntry → List MissedBlockEntry → List MissedBlockEntry
insert_by_number e [] = e ∷ []
insert_by_number e (f ∷ fs) =
    let rest = insert_by_number e fs in
    if leb e.block_number f.block_number then e ∷ f ∷ fs else f ∷ rest

unfoldable pub sort_by_number : List MissedBlockEntry → List MissedBlockEntry
unfolding insert_by_number
sort_by_number [] = []
sort_by_number (e ∷ es) = insert_by_number e (sort_by_number es)

-- The entries of one run: the oldest ones first, at most `max_blocks_per_run`.
unfoldable pub select : BlockRecoveryConfig → List MissedBlockEntry → List MissedBlockEntry
unfolding sort_by_number
select config missed_blocks = take config.max_blocks_per_run (sort_by_number missed_blocks)

module _ {S C M : Type 0} (block_storage : BlockStorage S) (rpc_client : BlockChainClient C)
    (block_handler : BlockType → Network → ProcessedBlock M) (now : ℕ) (network : Network)
    (config : BlockRecoveryConfig) where
  -- A failed update is only logged.
  unfoldable pub mark : ℕ → MissedBlockStatus → Option String → S → S
  mark n status error s =
      (block_storage.update_missed_block_status now network.slug n status error s).1

  abbrev pub next_status : MissedBlockEntry → MissedBlockStatus
  next_status e = if leb config.max_retries (u32 (e.retry_count + 1)) then failed else pending

  abbrev pub count_failure : MissedBlockStatus → RecoveryResult → RecoveryResult
  count_failure failed r = record r { failed = r.failed + 1 }
  count_failure _ r = r

  -- The arms `Ok(_)` and `Err(e)`.
  unfoldable pub give_up : MissedBlockEntry → String → Progress C M × S → Progress C M × S
  unfolding mark
  give_up e error (p, s) = (
    record p { result = count_failure (next_status e) p.result },
    mark e.block_number (next_status e) (some error) s,
  )

  -- The arm `Ok(blocks) if !blocks.is_empty()`.
  unfoldable pub recover : MissedBlockEntry → BlockType → Progress C M × S → Progress C M × S
  unfolding mark
  recover e block (p, s) = (
    record p {
      triggered = p.triggered ++ block_handler block network ∷ [];
      recovered_blocks = p.recovered_blocks ++ e.block_number ∷ [];
      result = record (p.result) { recovered = p.result.recovered + 1 };
    },
    mark e.block_number recovered none s,
  )

  unfoldable pub settle :
      MissedBlockEntry → Result String (List BlockType) → Progress C M × S → Progress C M × S
  unfolding give_up recover
  settle e (ok (block ∷ blocks)) ps = recover e block ps
  settle e (ok []) ps = give_up e "Block not found in RPC response" ps
  settle e (err error) ps = give_up e error ps

  -- The body of the loop.
  unfoldable pub attempt : MissedBlockEntry → Progress C M × S → Progress C M × S
  unfolding settle mark
  attempt e (p, s) =
      let fetched = rpc_client.get_blocks e.block_number (some e.block_number) p.client_state in
      settle e fetched.0 (
        record p {
          result = record (p.result) { attempted = p.result.attempted + 1 };
          client_state = fetched.1;
        },
        mark e.block_number recovering none s,
      )

  unfoldable pub attempt_all : List MissedBlockEntry → Progress C M × S → Progress C M × S
  unfolding attempt
  attempt_all [] ps = ps
  attempt_all (e ∷ es) ps = attempt_all es (attempt e ps)

  -- A failed removal is only logged.
  unfoldable pub remove_all : Progress C M × S → Progress C M × S
  remove_all (p, s) = (
    p,
    if is_empty p.recovered_blocks
        then s
        else (block_storage.remove_recovered_blocks now network.slug p.recovered_blocks s).1,
  )

  abbrev pub start : ℕ → C → Progress C M
  start pruned c = record {
    result = record { attempted = 0; recovered = 0; failed = 0; pruned = pruned };
    recovered_blocks = [];
    client_state = c;
    triggered = [];
  }

  -- The loop and the removal, once the eligible entries are loaded.
  unfoldable pub run : List MissedBlockEntry → Progress C M × S → Progress C M × S
  unfolding select attempt_all remove_all
  run missed_blocks ps = remove_all (attempt_all (select config missed_blocks) ps)

  -- The outcome, with the states of storage and client and the calls of the trigger handler.
  pub record Outcome : Type 0 where
    pub result : Result BlockWatcherError RecoveryResult
    pub storage_state : S
    pub client_state : C
    pub triggered : List (ProcessedBlock M)

  abbrev pub stop : BlockWatcherError → S → C → Outcome
  stop e s c = record { result = err e; storage_state = s; client_state = c; triggered = [] }

  abbrev pub finish : Progress C M × S → Outcome
  finish (p, s) = record {
    result = ok p.result;
    storage_state = s;
    client_state = p.client_state;
    triggered = p.triggered;
  }

  abbrev pub with_missed : ℕ → Result BlockWatcherError (List MissedBlockEntry) → S → C → Outcome
  with_missed pruned (err e) s c = stop e s c
  with_missed pruned (ok missed_blocks) s c = finish (run missed_blocks (start pruned c, s))

  abbrev pub with_pruned : ℕ → Result BlockWatcherError ℕ → S → C → Outcome
  with_pruned confirmed (err e) s c = stop e s c
  with_pruned confirmed (ok pruned) s c =
      let missed =
        block_storage.get_missed_blocks now network.slug config.max_block_age confirmed
          config.max_retries s in
      with_missed pruned (with_context "Failed to get missed blocks for recovery" missed.0) missed.1
        c

  abbrev pub with_latest : Result BlockWatcherError ℕ → S → C → Outcome
  with_latest (err e) s c = stop e s c
  with_latest (ok current_block) s c =
      let confirmed = saturating_sub current_block network.confirmation_blocks in
      let pruned =
        block_storage.prune_old_missed_blocks now network.slug config.max_block_age confirmed s in
      with_pruned confirmed (with_context "Failed to prune old missed blocks" pruned.0) pruned.1 c

  unfoldable pub process_missed_blocks : S → C → Outcome
  process_missed_blocks s c =
      let latest = rpc_client.get_latest_block_number c in
      with_latest (with_context "Failed to get latest block number for recovery" latest.0) s
        latest.1
