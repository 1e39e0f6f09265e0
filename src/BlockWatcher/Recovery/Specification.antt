-- ===== src/BlockWatcher/Recovery/Specification.antt =====
-- What a recovery run (src/services/blockwatcher/recovery.rs) is to do, written without its loop: the
-- selected blocks are asked for in order, each block that the client returns is handled and
-- triggered, and its entry goes.
use openzeppelin_monitor.Prelude.{ℕ, ◌-◌, ◌≡◌, true, false, List, none, length, map, contains}
use openzeppelin_monitor.Prelude.Result.{ok}
use openzeppelin_monitor.Models.Block.{BlockType, ProcessedBlock}
use openzeppelin_monitor.Models.Network.{Network, BlockRecoveryConfig}
use openzeppelin_monitor.BlockWatcher.Client.{BlockChainClient}
use openzeppelin_monitor.BlockWatcher.Storage.{MissedBlockEntry, BlockStorage, block_numbers}
use openzeppelin_monitor.BlockWatcher.Storage.Entries.{entry_of}
use openzeppelin_monitor.BlockWatcher.Recovery.{RecoveryResult, Outcome}
use openzeppelin_monitor.BlockWatcher.Recovery.Selection.{IsSelection}
use openzeppelin_monitor.BlockWatcher.Recovery.Answers.{
  found_blocks, found_numbers, given_up, answers, client_after,
}

module _ {S C M : Type 0} (storage : BlockStorage S) (rpc_client : BlockChainClient C)
    (block_handler : BlockType → Network → ProcessedBlock M) (now : ℕ) (network : Network)
    (config : BlockRecoveryConfig) (holds : List MissedBlockEntry → S → Type 0) where
  -- A run that selects the entries `selected` of the eligible ones, `missed`, of those that pruning keeps.
  pub record IsRecovery (es kept missed selected : List MissedBlockEntry) (c : C)
      (o : Outcome storage rpc_client block_handler now network config) : Type 0 where
    pub selects : IsSelection config missed selected
    pub counts : RecoveryResult
    pub ends : o.result ≡ ok counts
    pub attempted : counts.attempted ≡ length selected
    pub recovered : counts.recovered ≡ length (found_blocks (answers rpc_client selected c))
    pub failed : counts.failed ≡ given_up config (answers rpc_client selected c)
    pub pruned : counts.pruned ≡ length es - length kept
    pub triggered :
        o.triggered
        ≡ map (λ b. block_handler b network) (found_blocks (answers rpc_client selected c))
    pub client_state : o.client_state ≡ client_after rpc_client selected c
    pub left : List MissedBlockEntry
    pub stored : holds left o.storage_state
    pub gone :
        (n : ℕ)
        → contains (found_numbers (answers rpc_client selected c)) n ≡ true
        → entry_of n left ≡ none
    pub untouched :
        (n : ℕ) → contains (block_numbers selected) n ≡ false → entry_of n left ≡ entry_of n kept
