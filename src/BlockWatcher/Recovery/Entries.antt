-- ===== src/BlockWatcher/Recovery/Entries.antt =====
-- src/services/blockwatcher/recovery.rs: what a run does to the stored entries, over the list of entries
-- in memory.
use openzeppelin_monitor.Prelude.{ℕ, ◌≡◌, true, false, List, none, contains}
use openzeppelin_monitor.Prelude.Result.{Result}
use openzeppelin_monitor.Models.Block.{BlockType, ProcessedBlock}
use openzeppelin_monitor.Models.Network.{Network, BlockRecoveryConfig}
use openzeppelin_monitor.BlockWatcher.Client.{BlockChainClient}
use openzeppelin_monitor.BlockWatcher.Storage.{MissedBlockEntry, block_numbers}
use openzeppelin_monitor.BlockWatcher.Storage.Entries.{entry_of}
use openzeppelin_monitor.BlockWatcher.Recovery.{Progress, select}

module _ {C M : Type 0} (rpc_client : BlockChainClient C)
    (block_handler : BlockType → Network → ProcessedBlock M) (now : ℕ) (network : Network)
    (config : BlockRecoveryConfig) where
  -- For a number that is not attempted: its entry is as before, and it is not counted as recovered.
  record IsSame (n : ℕ) (x y : Progress C M × List MissedBlockEntry) : Type 0 where
    entry : entry_of n (x.1) ≡ entry_of n (y.1)
    listed : contains (x.0.recovered_blocks) n ≡ contains (y.0.recovered_blocks) n

  -- What a run leaves of the entries.
  pub record Leaves (es missed : List MissedBlockEntry) (r : Progress C M × List MissedBlockEntry)
      : Type 0 where
    pub gone : (n : ℕ) → contains (r.0.recovered_blocks) n ≡ true → entry_of n (r.1) ≡ none
    pub untouched :
        (n : ℕ)
        → contains (block_numbers (select config missed)) n ≡ false
        → entry_of n (r.1) ≡ entry_of n es
