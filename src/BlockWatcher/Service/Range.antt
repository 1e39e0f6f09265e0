-- ===== src/BlockWatcher/Service/Range.antt =====
-- src/services/blockwatcher/service.rs, `process_new_blocks`: the range of blocks that a run asks for,
-- and the missed blocks that it stores.
use openzeppelin_monitor.Prelude.{
  ℕ, ◌+◌, ◌-◌, ◌≤◌, ◌<◌, ◌≡◌, refl, true, false, ◌||◌, List, [], ◌∷◌, arith, Bool-cases, inl, inr,
  contains, is_empty,
}
use openzeppelin_monitor.Models.Block.{BlockType, ProcessedBlock}
use openzeppelin_monitor.Models.Network.{Network}
use openzeppelin_monitor.Models.NetworkConfig.{Cron}
use openzeppelin_monitor.BlockWatcher.Client.{BlockChainClient}
use openzeppelin_monitor.BlockWatcher.Storage.{MissedBlockEntry, BlockStorage, block_numbers}
use openzeppelin_monitor.BlockWatcher.Storage.Entries.{contains-save_missed}
use openzeppelin_monitor.BlockWatcher.Storage.Memory.{Implements}
use openzeppelin_monitor.BlockWatcher.Storage
use openzeppelin_monitor.BlockWatcher.Tracker.{detect_missing_blocks, numbers}
use openzeppelin_monitor.BlockWatcher.Tracker.Missing.{IsMissed, detect_missing_blocks_iff}
use openzeppelin_monitor.BlockWatcher.Service.{
  start_block_of, stores_blocks, recovery_enabled, save_missed,
}

-- For a last processed block below the last 64-bit number: the range from the start block to the
-- latest confirmed one begins after the last processed block, holds at most `max_past_blocks` + 1
-- blocks, and skips no block when the latest confirmed one is at most `max_past_blocks` + 1 ahead
-- of the last processed one.
pub start_block_of_range :
    (last latest past : ℕ)
    → last < 18446744073709551615
    → let start = start_block_of last latest past in
      (last < start)
      × (latest + 1 - start ≤ past + 1)
      × (latest ≤ last + past + 1 → start ≡ last + 1)
start_block_of_range last latest past h =
    (omega (arith, h), omega (arith, h), λ k. omega (arith, h, k))

module _ {S C M : Type 0} (cron : Cron) (storage : BlockStorage S) (rpc_client : BlockChainClient C)
    (block_handler : BlockType → Network → ProcessedBlock M)
    (finish_order : List (ProcessedBlock M) → List (ProcessedBlock M)) (now : ℕ) (network : Network)
    (holds : List MissedBlockEntry → S → Type 0) (i : Implements storage network.slug holds) where
  -- What a storage is left with.
  pub record Stored (blocks : List BlockType) (es : List MissedBlockEntry) (s : S) : Type 0 where
    pub entries : List MissedBlockEntry
    pub held : holds entries s
    pub old :
        (n : ℕ) → contains (block_numbers es) n ≡ true → contains (block_numbers entries) n ≡ true
    pub missed : (n : ℕ) → IsMissed (numbers blocks) n → contains (block_numbers entries) n ≡ true

  -- On a network that stores or recovers blocks, over a storage that keeps the contract of missed
  -- blocks, every block that is missing between two fetched ones is stored as a missed block, and
  -- the stored ones stay.
  pub save_missed-Stored :
      (blocks : List BlockType) (es : List MissedBlockEntry) (s : S)
      → (stores_blocks network || recovery_enabled network) ≡ true
      → holds es s
      → Stored blocks es
          (save_missed cron storage rpc_client block_handler finish_order now network
            (detect_missing_blocks blocks)
            s).1
  unfolding save_missed
  save_missed-Stored blocks es s on h =
      elim (Bool-cases (is_empty (detect_missing_blocks blocks))) [
        | inl e ↦ rw e (record {
          entries = es;
          held = h;
          old = λ n k. k;
          missed = λ n m. ground (
            arith,
            none_missed (detect_missing_blocks blocks) n e,
            (detect_missing_blocks_iff blocks n).1 m,
          );
        })
        | inr e ↦
            rw (e, on)
              (record {
                entries = Storage.save_missed now (detect_missing_blocks blocks) es;
                held = (i.saves now (detect_missing_blocks blocks) es s h).1;
                old = λ n k.
                    rw (contains-save_missed now (detect_missing_blocks blocks) es n)
                      (ground (arith, k));
                missed = λ n m.
                    rw (contains-save_missed now (detect_missing_blocks blocks) es n)
                      (ground (arith, (detect_missing_blocks_iff blocks n).1 m));
              })
      ]
    where
      none_missed : (ns : List ℕ) (n : ℕ) → is_empty ns ≡ true → contains ns n ≡ false
      none_missed [] n e = refl
      none_missed (m ∷ ns) n e = ground (arith, e)
