-- ===== src/BlockWatcher/Storage/Memory.antt =====
-- The contract of src/services/blockwatcher/storage.rs for missed blocks: a network's storage as
-- the list of entries it holds. `memory_storage` is the trait on such a list, and `Implements`
-- says that a storage does what it does.
use openzeppelin_monitor.Prelude.{ℕ, ◌-◌, ◌≡◌, List, Option, none, String, length}
use openzeppelin_monitor.Prelude.Result.{ok}
use openzeppelin_monitor.BlockWatcher.Storage.{
  MissedBlockStatus, MissedBlockEntry, BlockStorage, save_missed, get_missed, update_status,
  remove_recovered, prune_old,
}
use openzeppelin_monitor.BlockWatcher.Storage.File.{Io, Codec, file_block_storage}
use openzeppelin_monitor.BlockWatcher.Storage.File.Laws.{
  Works, Holds, save_missed_blocks_lem, get_missed_blocks_lem, update_missed_block_status_lem,
  remove_recovered_blocks_lem, prune_old_missed_blocks_lem,
}

-- The missed blocks of one network; nothing else is kept.
abbrev pub memory_storage : BlockStorage (List MissedBlockEntry)
memory_storage = record {
  get_last_processed_block = λ slug es. (ok none, es);
  save_last_processed_block = λ slug n es. (ok tt, es);
  save_blocks = λ now slug blocks es. (ok tt, es);
  delete_blocks = λ slug es. (ok tt, es);
  save_missed_blocks = λ now slug ns es. (ok tt, save_missed now ns es);
  get_missed_blocks =
      λ now slug age current retries es. (ok (get_missed age current retries es), es);
  update_missed_block_status =
      λ now slug n status error es. (ok tt, update_status now n status error es);
  remove_recovered_blocks = λ now slug ns es. (ok tt, remove_recovered ns es);
  prune_old_missed_blocks = λ now slug age current es.
      (ok (length es - length (prune_old age current es)), prune_old age current es);
}

module _ {S : Type 0} (storage : BlockStorage S) (slug : String) where
  pub record Implements (holds : List MissedBlockEntry → S → Type 0) : Type 0 where
    pub saves :
        (now : ℕ) (ns : List ℕ) (es : List MissedBlockEntry) (s : S)
        → holds es s
        → (storage.save_missed_blocks now slug ns s).0 ≡ ok tt
          × holds (save_missed now ns es) (storage.save_missed_blocks now slug ns s).1
    pub gets :
        (now age current retries : ℕ) (es : List MissedBlockEntry) (s : S)
        → holds es s
        → storage.get_missed_blocks now slug age current retries s
          ≡ (ok (get_missed age current retries es), s)
    pub updates :
        (now n : ℕ) (status : MissedBlockStatus) (error : Option String)
        (es : List MissedBlockEntry) (s : S)
        → holds es s
        → holds
            (update_status now n status error es)
            (storage.update_missed_block_status now slug n status error s).1
    pub removes :
        (now : ℕ) (ns : List ℕ) (es : List MissedBlockEntry) (s : S)
        → holds es s
        → holds (remove_recovered ns es) (storage.remove_recovered_blocks now slug ns s).1
    pub prunes :
        (now age current : ℕ) (es : List MissedBlockEntry) (s : S)
        → holds es s
        → (storage.prune_old_missed_blocks now slug age current s).0
            ≡ ok (length es - length (prune_old age current es))
          × holds
              (prune_old age current es)
              (storage.prune_old_missed_blocks now slug age current s).1

-- The file storage implements the contract for a network whose list of missed blocks can be read and
-- written, and serialized.
pub file_block_storage-Implements :
    (io : Io) (codec : Codec) (dir : String) (glob : String → List String → Option (List String))
    (stamp : ℕ → String) (slug : String)
    → Works io codec dir slug
    → Implements (file_block_storage io codec dir glob stamp) slug (Holds io codec dir slug)
file_block_storage-Implements io codec dir glob stamp slug w = record {
  saves = λ now ns es fs h.
      let l = save_missed_blocks_lem io codec dir slug w now ns es fs h in (l.result, l.holds);
  gets = λ now age current retries es fs h.
      get_missed_blocks_lem io codec dir slug w now age current retries es fs h;
  updates = λ now n status error es fs h.
      (update_missed_block_status_lem io codec dir slug w now n status error es fs h).holds;
  removes =
      λ now ns es fs h. (remove_recovered_blocks_lem io codec dir slug w now ns es fs h).holds;
  prunes = λ now age current es fs h.
      let l = prune_old_missed_blocks_lem io codec dir slug w now age current es fs h in
      (l.result, l.holds);
}
