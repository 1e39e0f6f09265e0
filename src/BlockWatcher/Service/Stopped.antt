-- ===== src/BlockWatcher/Service/Stopped.antt =====
-- src/services/blockwatcher/service.rs, `process_new_blocks`: what a run leaves alone that cannot fetch its
-- blocks.
use openzeppelin_monitor.Prelude.{ℕ, ◌≡◌, refl, sym, ap, ◌∙◌, subst, List, [], Option, String}
use openzeppelin_monitor.Prelude.Result.{ok, err}
use openzeppelin_monitor.Models.Block.{BlockType, ProcessedBlock, unwrap_or}
use openzeppelin_monitor.Models.Network.{Network}
use openzeppelin_monitor.Models.NetworkConfig.{Cron}
use openzeppelin_monitor.BlockWatcher.Client.{BlockChainClient, BlockWatcherError}
use openzeppelin_monitor.BlockWatcher.Storage.{BlockStorage, StorageError}
use openzeppelin_monitor.BlockWatcher.Tracker.{BlockTracker}
use openzeppelin_monitor.BlockWatcher.Service.{
  returned, Outcome, after_latest, after_last, process_new_blocks,
}
use openzeppelin_monitor.BlockWatcher.Service.Run.{IsFetched, run_of_IsFetched}

module _ {S C M : Type 0} (cron : Cron) (storage : BlockStorage S) (rpc_client : BlockChainClient C)
    (block_handler : BlockType → Network → ProcessedBlock M)
    (finish_order : List (ProcessedBlock M) → List (ProcessedBlock M)) (now : ℕ)
    (network : Network) where
  -- A run that could not find out what to fetch, or could not fetch it.
  pub data Fails (s : S) (c : C) : Type 0 where
    no_latest :
        (last : Option ℕ) (e : String)
        → (storage.get_last_processed_block network.slug s).0 ≡ ok last
        → (rpc_client.get_latest_block_number c).0 ≡ err e
        → Fails s c
    no_blocks :
        (e : String)
        → IsFetched cron storage rpc_client block_handler finish_order now network s c (err e)
        → Fails s c
    no_last :
        (e : StorageError) → (storage.get_last_processed_block network.slug s).0 ≡ err e → Fails s c

  -- An error, after which nothing was triggered or reported and nothing was written.
  pub record IsUntouched (s : S) (t : BlockTracker) (o : Outcome S C M) : Type 0 where
    pub error : (e : BlockWatcherError) × (o.ended ≡ returned (err e))
    pub nothing_triggered : o.triggered ≡ []
    pub nothing_reported : o.reports ≡ []
    pub same_storage : o.storage_state ≡ (storage.get_last_processed_block network.slug s).1
    pub same_tracker : o.block_tracker ≡ t

  -- When the storage cannot be read, or the client cannot give the latest block or the range, the run
  -- returns an error, calls neither the trigger handler nor the tracker, and writes nothing.
  pub process_new_blocks-IsUntouched :
      (s : S) (c : C) (t : BlockTracker)
      → Fails s c
      → IsUntouched s t
          (process_new_blocks cron storage rpc_client block_handler finish_order now network s c t)
  unfolding process_new_blocks
  process_new_blocks-IsUntouched s c t (no_last e h) =
      let s' = (storage.get_last_processed_block network.slug s).1 in
      subst (IsUntouched s t)
        (sym (
          ap
            (λ r.
              after_last cron storage rpc_client block_handler finish_order now network r s' c t)
            h))
        (record {
          error = (_, refl);
          nothing_triggered = refl;
          nothing_reported = refl;
          same_storage = refl;
          same_tracker = refl;
        })
  process_new_blocks-IsUntouched s c t (no_latest last e h k) =
      let s' = (storage.get_last_processed_block network.slug s).1 in
      let c' = (rpc_client.get_latest_block_number c).1 in
      subst (IsUntouched s t)
        (sym (
          ap
            (λ r.
              after_last cron storage rpc_client block_handler finish_order now network r s' c t)
            h
          ∙ ap
              (λ r.
                after_latest cron storage rpc_client block_handler finish_order now network
                  (unwrap_or 0 last) r s' c' t)
              k))
        (record {
          error = (_, refl);
          nothing_triggered = refl;
          nothing_reported = refl;
          same_storage = refl;
          same_tracker = refl;
        })
  process_new_blocks-IsUntouched s c t (no_blocks e f) =
      subst (IsUntouched s t)
        (sym (
          run_of_IsFetched cron storage rpc_client block_handler finish_order now network s c
            (err e) t f))
        (record {
          error = (_, refl);
          nothing_triggered = refl;
          nothing_reported = refl;
          same_storage = refl;
          same_tracker = refl;
        })
