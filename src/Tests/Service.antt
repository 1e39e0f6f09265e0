-- ===== src/Tests/Service.antt =====
-- Runs of `process_new_blocks` of src/services/blockwatcher/service.rs.
use openzeppelin_monitor.Prelude.{ℕ, suc, ◌+◌, ◌-◌, ◌<◌, ◌≤◌, ◌≡◌, refl, List, [], ◌∷◌, some, arith}
use mathlib.Core.List.{reverse, reverse_perm}
use openzeppelin_monitor.Prelude.Result.{ok, err}
use openzeppelin_monitor.Models.Block.{ProcessedBlock, number}
use openzeppelin_monitor.BlockWatcher.Client.{BlockChainClient}
use openzeppelin_monitor.BlockWatcher.Storage.{block_numbers, new_entry}
use openzeppelin_monitor.BlockWatcher.Tracker.{detect_missing_blocks, reset_expected_next}
use openzeppelin_monitor.BlockWatcher.Pipeline.Order.{IsExpected, IsBatch}
use openzeppelin_monitor.BlockWatcher.Service.{
  returned, start_block_of, process_new_blocks, save_missed, pipeline, store, save_last, arrivals,
  fetch,
}
use openzeppelin_monitor.Models.NetworkConfig.{get_recommended_past_blocks}
use openzeppelin_monitor.BlockWatcher.Storage
use openzeppelin_monitor.BlockWatcher.Pipeline.{trigger_stage}
use openzeppelin_monitor.BlockWatcher.Service.Run.{
  Accepts, IsDone, IsFetched, process_new_blocks-IsDone,
}
use openzeppelin_monitor.BlockWatcher.Service.Stopped.{
  no_blocks, IsUntouched, process_new_blocks-IsUntouched,
}
use openzeppelin_monitor.BlockWatcher.Service.Range.{
  start_block_of_range, Stored, save_missed-Stored,
}
use openzeppelin_monitor.Tests.Data.{
  testnet, cron, block, processed, handler, tracker, State, storage, Has, storage-Implements,
}
use openzeppelin_monitor.Tests.Storage.{entries}

-- The node is at block 11 and leaves out block 8.
abbrev client : BlockChainClient ℕ
client = record {
  get_latest_block_number = λ calls. (ok 11, suc calls);
  get_blocks = λ first last calls. (ok (block 6 ∷ block 7 ∷ block 9 ∷ []), suc calls);
}

-- The handlers finish in the opposite order.
abbrev finish_order : List (ProcessedBlock ℕ) → List (ProcessedBlock ℕ)
finish_order bs = reverse bs

abbrev state : State
state = (entries, some 5)

runs_in_order :
    let o =
      process_new_blocks cron storage client handler finish_order 3000 testnet state 0 tracker in
    (o.ended ≡ returned (ok tt))
    × (o.triggered ≡ processed 6 ∷ processed 7 ∷ processed 9 ∷ [])
    × (block_numbers (o.storage_state.0) ≡ 7 ∷ 4 ∷ 8 ∷ [])
    × (o.storage_state.1 ≡ some 9)
unfolding process_new_blocks get_recommended_past_blocks fetch save_missed Storage.save_missed
    pipeline store save_last new_entry reset_expected_next detect_missing_blocks trigger_stage
runs_in_order = (refl, refl, refl, refl)

accepts : Accepts storage testnet.slug
accepts = record {
  saves_missed = λ now ns s. refl;
  deletes = λ s. refl;
  saves_blocks = λ now bs s. refl;
  saves_last = λ n s. refl;
  keeps_last = λ n s. refl;
}

fetched :
    IsFetched cron storage client handler finish_order 3000 testnet state 0
      (ok (block 6 ∷ block 7 ∷ block 9 ∷ []))
unfolding fetch get_recommended_past_blocks
fetched = record {
  last = some 5;
  latest = 11;
  bound = 20;
  gets_last = refl;
  gets_latest = refl;
  has_bound = refl;
  fetches = refl;
}

expected : (n : ℕ) → 6 ≤ n → n < 100 → IsExpected 6 [] (processed n)
expected n from to = record { is_new = refl; from_start = from; no_wrap = omega (arith, to) }

batch : IsBatch 6 (
    arrivals cron storage client handler finish_order 3000 testnet
      (block 6 ∷ block 7 ∷ block 9 ∷ []))
unfolding number
batch = record {
  distinct = (refl, (refl, (refl, tt)));
  in_range = (
    expected 9 (omega arith) (omega arith),
    (expected 7 (omega arith) (omega arith), (expected 6 (omega arith) (omega arith), tt)),
  );
}

process_new_blocks-IsDone_example :
    IsDone cron storage client handler finish_order 3000 testnet
      (block 6 ∷ block 7 ∷ block 9 ∷ [])
      9
      (process_new_blocks cron storage client handler finish_order 3000 testnet state 0 tracker)
unfolding fetched
process_new_blocks-IsDone_example =
    process_new_blocks-IsDone cron storage client handler finish_order 3000 testnet accepts
      (λ bs. reverse_perm bs) state 0 tracker (block 6 ∷ block 7 ∷ block 9 ∷ []) fetched batch

-- The node answers, but not for the range.
abbrev failing : BlockChainClient ℕ
failing = record {
  get_latest_block_number = λ calls. (ok 11, suc calls);
  get_blocks = λ first last calls. (err "timeout", suc calls);
}

not_fetched :
    IsFetched cron storage failing handler finish_order 3000 testnet state 0 (err "timeout")
unfolding fetch get_recommended_past_blocks
not_fetched = record {
  last = some 5;
  latest = 11;
  bound = 20;
  gets_last = refl;
  gets_latest = refl;
  has_bound = refl;
  fetches = refl;
}

process_new_blocks-IsUntouched_example :
    IsUntouched cron storage failing handler finish_order 3000 testnet state tracker
      (process_new_blocks cron storage failing handler finish_order 3000 testnet state 0 tracker)
process_new_blocks-IsUntouched_example =
    process_new_blocks-IsUntouched cron storage failing handler finish_order 3000 testnet state 0
      tracker (no_blocks "timeout" not_fetched)

start_block_of_range_example :
    let start = start_block_of 5 9 20 in
    (5 < start) × (9 + 1 - start ≤ 20 + 1) × (9 ≤ 5 + 20 + 1 → start ≡ 5 + 1)
start_block_of_range_example = start_block_of_range 5 9 20 (omega arith)

save_missed-Stored_example :
    Stored cron storage client handler finish_order 3000 testnet Has storage-Implements
      (block 6 ∷ block 7 ∷ block 9 ∷ [])
      entries
      (save_missed cron storage client handler finish_order 3000 testnet
        (detect_missing_blocks (block 6 ∷ block 7 ∷ block 9 ∷ []))
        state).1
save_missed-Stored_example =
    save_missed-Stored cron storage client handler finish_order 3000 testnet Has storage-Implements
      (block 6 ∷ block 7 ∷ block 9 ∷ []) entries state refl refl
