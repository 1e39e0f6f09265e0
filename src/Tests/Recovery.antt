-- ===== src/Tests/Recovery.antt =====
-- Runs of src/services/blockwatcher/recovery.rs.
use openzeppelin_monitor.Prelude.{ℕ, suc, ◌≡◌, refl, [], ◌∷◌, ◌==◌, if◌then◌else◌}
use openzeppelin_monitor.Prelude.Result.{ok, err}
use openzeppelin_monitor.BlockWatcher.Client.{BlockChainClient}
use openzeppelin_monitor.BlockWatcher.Storage.{
  new_entry, block_numbers, get_missed, prune_old, remove_recovered, update_status,
}
use openzeppelin_monitor.BlockWatcher.Storage.Memory.{memory_storage}
use openzeppelin_monitor.BlockWatcher.Recovery.{process_missed_blocks, run}
use openzeppelin_monitor.BlockWatcher.Recovery.Counts.{IsCounted, process_missed_blocks-IsCounted}
use openzeppelin_monitor.Tests.Data.{testnet, recovery, block, handler}
use openzeppelin_monitor.Tests.Storage.{entries}

-- The node is at block 20 and has every block but 4; its state counts the calls.
abbrev client : BlockChainClient ℕ
client = record {
  get_latest_block_number = λ calls. (ok 20, suc calls);
  get_blocks = λ first last calls.
      ((if first == 4 then err "no such block" else ok (block first ∷ [])), suc calls);
}

recovers_seven :
    let o = process_missed_blocks memory_storage client handler 3000 testnet recovery entries 0 in
    (o.result ≡ ok (record { attempted = 2; recovered = 1; failed = 0; pruned = 0 }))
    × (block_numbers o.storage_state ≡ 4 ∷ [])
    × (o.client_state ≡ 3)
unfolding process_missed_blocks run new_entry get_missed prune_old remove_recovered update_status
recovers_seven = (refl, refl, refl)

process_missed_blocks-IsCounted_example :
    let o = process_missed_blocks memory_storage client handler 3000 testnet recovery entries 0 in
    IsCounted memory_storage client handler 3000 testnet recovery o.result o.triggered
process_missed_blocks-IsCounted_example =
    process_missed_blocks-IsCounted memory_storage client handler 3000 testnet recovery entries 0
