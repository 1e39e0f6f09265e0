-- ===== src/BlockWatcher/Pipeline.antt =====
-- src/services/blockwatcher/service.rs, `process_new_blocks`, stage 2 of its pipeline: the processed
-- blocks arrive in the order in which the concurrent handlers finish, are buffered in a `BTreeMap`
-- keyed by their number, and are handed to the trigger handler. The map is a list in ascending
-- order of the key, which is the block's own number. `triggered` is the sequence of calls of the
-- trigger handler and `reports` that of the tracker's answers, which are only logged.
pub mod Buffer
pub mod Ready
pub mod Order
pub mod Reports
use openzeppelin_monitor.Prelude.{
  ℕ, zero, suc, ◌+◌, ◌≡◌, Bool, true, false, List, [], ◌∷◌, ◌++◌, Option, none, some, ltb, ◌==◌,
  if◌then◌else◌, length,
}
use openzeppelin_monitor.Prelude.Word.{u64}
use openzeppelin_monitor.Models.Block.{ProcessedBlock}
use openzeppelin_monitor.Models.Network.{Network}
use openzeppelin_monitor.BlockWatcher.Tracker.{
  BlockTracker, BlockCheckResult, check_processed_block,
}

module _ {M : Type 0} where
  -- `BTreeMap::insert` replaces the value of a key that is there.
  unfoldable pub insert_pending :
      ProcessedBlock M → List (ProcessedBlock M) → List (ProcessedBlock M)
  insert_pending b [] = b ∷ []
  insert_pending b (c ∷ cs) =
      let rest = insert_pending b cs in
      if ltb b.block_number c.block_number
      then b ∷ c ∷ cs
      else if b.block_number == c.block_number
      then b ∷ cs
      else c ∷ rest

  -- `BTreeMap::remove`: the value, and the map without it.
  unfoldable pub remove_pending :
      ℕ → List (ProcessedBlock M) → Option (ProcessedBlock M × List (ProcessedBlock M))
  remove_pending n [] = none
  remove_pending n (c ∷ cs) = elim (c.block_number == n) [
    | true ↦ some (c, cs)
    | false ↦ elim (remove_pending n cs) [ none ↦ none | some found ↦ some (found.0, c ∷ found.1) ]
  ]

pub record Stage (M : Type 0) : Type 0 where
  pub pending : List (ProcessedBlock M)
  pub next_block_number : ℕ
  pub block_tracker : BlockTracker
  pub triggered : List (ProcessedBlock M)
  pub reports : List BlockCheckResult

module _ {M : Type 0} (network : Network) where
  -- The tracker is asked about the number, and the block is handed on whatever it answers.
  unfoldable pub execute : ℕ → ProcessedBlock M → Stage M → Stage M
  execute n block s =
      let (block_tracker, report) = check_processed_block s.block_tracker network n in
      record s {
        block_tracker = block_tracker;
        triggered = s.triggered ++ block ∷ [];
        reports = s.reports ++ report ∷ [];
      }

  -- `while let Some(expected)`: blocks in order, as long as the next one is there. A round takes
  -- one block out of the map, so its size is fuel enough.
  unfoldable pub run_ready : ℕ → Stage M → Stage M
  unfolding execute remove_pending
  run_ready zero s = s
  run_ready (suc fuel) s = elim (remove_pending s.next_block_number s.pending) [
    | none ↦ s
    | some found ↦ run_ready fuel (record (execute s.next_block_number found.0 s) {
      pending = found.1;
      next_block_number = u64 (s.next_block_number + 1);
    })
  ]

  unfoldable pub receive : ProcessedBlock M → Stage M → Stage M
  unfolding run_ready insert_pending
  receive block s =
      let pending = insert_pending block s.pending in
      run_ready (length pending) (record s { pending = pending })

  unfoldable pub receive_all : List (ProcessedBlock M) → Stage M → Stage M
  unfolding receive
  receive_all [] s = s
  receive_all (block ∷ blocks) s = receive_all blocks (receive block s)

  -- After the channel is closed: the least key first, until the map is empty.
  unfoldable pub flush_from : List (ProcessedBlock M) → Stage M → Stage M
  unfolding execute
  flush_from [] s = record s { pending = [] }
  flush_from (c ∷ cs) s = flush_from cs (execute c.block_number c s)

  unfoldable pub trigger_stage : ℕ → BlockTracker → List (ProcessedBlock M) → Stage M
  unfolding receive_all flush_from
  trigger_stage start_block block_tracker arrivals =
      let s = receive_all arrivals (record {
        pending = [];
        next_block_number = start_block;
        block_tracker = block_tracker;
        triggered = [];
        reports = [];
      }) in
      flush_from s.pending s
