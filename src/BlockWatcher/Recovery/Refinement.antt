-- ===== src/BlockWatcher/Recovery/Refinement.antt =====
-- src/services/blockwatcher/recovery.rs over a storage that keeps its contract, compared with the
-- run over the list of entries in memory.
use openzeppelin_monitor.Prelude.{
  ℕ, ◌≡◌, refl, sym, subst, ap, true, false, List, [], ◌∷◌, Option, none, String, if◌then◌else◌,
  is_empty, Bool, length, ◌-◌,
}
use openzeppelin_monitor.Prelude.Result.{Result, ok, err}
use openzeppelin_monitor.Prelude.Word.{saturating_sub}
use openzeppelin_monitor.Models.Block.{BlockType, ProcessedBlock}
use openzeppelin_monitor.Models.Network.{Network, BlockRecoveryConfig}
use openzeppelin_monitor.BlockWatcher.Client.{BlockChainClient, BlockWatcherError, with_context}
use openzeppelin_monitor.BlockWatcher.Storage.{
  recovering, MissedBlockEntry, BlockStorage, recovered, get_missed, prune_old, MissedBlockStatus,
}
use openzeppelin_monitor.BlockWatcher.Storage.Memory.{memory_storage, Implements}
use openzeppelin_monitor.BlockWatcher.Recovery.{
  Progress, mark, give_up, recover, settle, attempt, attempt_all, remove_all, run, select, start,
  finish, with_missed, with_pruned, with_latest, Outcome, process_missed_blocks,
}

module _ {S C M : Type 0} (storage : BlockStorage S) (rpc_client : BlockChainClient C)
    (block_handler : BlockType → Network → ProcessedBlock M) (now : ℕ) (network : Network)
    (config : BlockRecoveryConfig) (holds : List MissedBlockEntry → S → Type 0) where
  -- The same progress, and the storage holds the list.
  abbrev Agrees : Progress C M × S → Progress C M × List MissedBlockEntry → Type 0
  Agrees x y = x.0 ≡ y.0 × holds y.1 x.1

  -- The same result, calls of the client and of the trigger handler, and the storage holds the list.
  pub record IsRun (o : Outcome storage rpc_client block_handler now network config)
      (m : Outcome memory_storage rpc_client block_handler now network config) : Type 0 where
    pub result : o.result ≡ m.result
    pub client_state : o.client_state ≡ m.client_state
    pub triggered : o.triggered ≡ m.triggered
    pub storage_state : holds m.storage_state o.storage_state

  holds_if :
      (b : Bool) {es fs : List MissedBlockEntry} {s t : S}
      → holds es s
      → holds fs t
      → holds (if b then es else fs) (if b then s else t)
  holds_if true h k = h
  holds_if false h k = k

  module _ (i : Implements storage network.slug holds) where
    mark-Agrees :
        (n : ℕ) (status : MissedBlockStatus) (error : Option String) (s : S)
        (es : List MissedBlockEntry)
        → holds es s
        → holds
            (mark memory_storage rpc_client block_handler now network config n status error es)
            (mark storage rpc_client block_handler now network config n status error s)
    unfolding mark
    mark-Agrees n status error s es h = i.updates now n status error es s h

    settle-Agrees :
        (e : MissedBlockEntry) (fetched : Result String (List BlockType)) (p : Progress C M) (s : S)
        (es : List MissedBlockEntry)
        → holds es s
        → Agrees
            (settle storage rpc_client block_handler now network config e fetched (p, s))
            (settle memory_storage rpc_client block_handler now network config e fetched (p, es))
    unfolding settle give_up recover
    settle-Agrees e (ok (b ∷ bs)) p s es h =
        (refl, mark-Agrees e.block_number recovered none s es h)
    settle-Agrees e (ok []) p s es h = (refl, mark-Agrees e.block_number _ _ s es h)
    settle-Agrees e (err error) p s es h = (refl, mark-Agrees e.block_number _ _ s es h)

    attempt-Agrees :
        (e : MissedBlockEntry) (p : Progress C M) (s : S) (es : List MissedBlockEntry)
        → holds es s
        → Agrees
            (attempt storage rpc_client block_handler now network config e (p, s))
            (attempt memory_storage rpc_client block_handler now network config e (p, es))
    unfolding attempt
    attempt-Agrees e p s es h =
        settle-Agrees e _ _ _ _ (mark-Agrees e.block_number recovering none s es h)

    attempt_all-Agrees :
        (fs : List MissedBlockEntry) (x : Progress C M × S)
        (y : Progress C M × List MissedBlockEntry)
        → Agrees x y
        → Agrees
            (attempt_all storage rpc_client block_handler now network config fs x)
            (attempt_all memory_storage rpc_client block_handler now network config fs y)
    unfolding attempt_all
    attempt_all-Agrees [] x y h = h
    attempt_all-Agrees (e ∷ fs) x y h = attempt_all-Agrees fs _ _ (
        subst
          (λ p.
            Agrees (attempt storage rpc_client block_handler now network config e x)
              (attempt memory_storage rpc_client block_handler now network config e (p, y.1)))
          h.0 (attempt-Agrees e x.0 x.1 y.1 h.1))

    remove_all-Agrees :
        (p : Progress C M) (s : S) (es : List MissedBlockEntry)
        → holds es s
        → Agrees
            (remove_all storage rpc_client block_handler now network config (p, s))
            (remove_all memory_storage rpc_client block_handler now network config (p, es))
    unfolding remove_all
    remove_all-Agrees p s es h =
        (refl, holds_if (is_empty p.recovered_blocks) h (i.removes now p.recovered_blocks es s h))

    run-Agrees :
        (missed : List MissedBlockEntry) (p : Progress C M) (s : S) (es : List MissedBlockEntry)
        → holds es s
        → Agrees
            (run storage rpc_client block_handler now network config missed (p, s))
            (run memory_storage rpc_client block_handler now network config missed (p, es))
    unfolding run
    run-Agrees missed p s es h =
        let a = attempt_all-Agrees (select config missed) (p, s) (p, es) (refl, h) in
        let x =
          attempt_all storage rpc_client block_handler now network config (select config missed)
            (p, s) in
        let y =
          attempt_all memory_storage rpc_client block_handler now network config
            (select config missed) (p, es) in
        subst
          (λ q.
            Agrees (remove_all storage rpc_client block_handler now network config x)
              (remove_all memory_storage rpc_client block_handler now network config (q, y.1)))
          a.0 (remove_all-Agrees x.0 x.1 y.1 a.1)

    finish-IsRun :
        (x : Progress C M × S) (y : Progress C M × List MissedBlockEntry)
        → Agrees x y
        → IsRun
            (finish storage rpc_client block_handler now network config x)
            (finish memory_storage rpc_client block_handler now network config y)
    finish-IsRun (p, s) (q, es) h = record {
      result = ap (λ (r : Progress C M). ok r.result) h.0;
      client_state = ap (λ (r : Progress C M). r.client_state) h.0;
      triggered = ap (λ (r : Progress C M). r.triggered) h.0;
      storage_state = h.1;
    }

    with_missed-IsRun :
        (pruned : ℕ) (missed : List MissedBlockEntry) (s : S) (es : List MissedBlockEntry) (c : C)
        → holds es s
        → IsRun
            (with_missed storage rpc_client block_handler now network config pruned (ok missed) s c)
            (with_missed memory_storage rpc_client block_handler now network config pruned
              (ok missed)
              es
              c)
    with_missed-IsRun pruned missed s es c h = finish-IsRun _ _ (
        run-Agrees missed (start storage rpc_client block_handler now network config pruned c) s es
          h)

    with_pruned-IsRun :
        (confirmed pruned : ℕ) (s : S) (es : List MissedBlockEntry) (c : C)
        → holds es s
        → IsRun
            (with_pruned storage rpc_client block_handler now network config confirmed
              (ok pruned)
              s
              c)
            (with_pruned memory_storage rpc_client block_handler now network config confirmed
              (ok pruned)
              es
              c)
    with_pruned-IsRun confirmed pruned s es c h =
        subst
          (λ r.
            IsRun
              (with_missed storage rpc_client block_handler now network config pruned
                (with_context "Failed to get missed blocks for recovery" r.0) r.1 c)
              (with_pruned memory_storage rpc_client block_handler now network config confirmed
                (ok pruned) es c))
          (sym (i.gets now config.max_block_age confirmed config.max_retries es s h))
          (with_missed-IsRun pruned
            (get_missed config.max_block_age confirmed config.max_retries es) s es c h)

    with_latest-IsRun :
        (latest : Result BlockWatcherError ℕ) (s : S) (es : List MissedBlockEntry) (c : C)
        → holds es s
        → IsRun
            (with_latest storage rpc_client block_handler now network config latest s c)
            (with_latest memory_storage rpc_client block_handler now network config latest es c)
    with_latest-IsRun (err e) s es c h = record {
      result = refl;
      client_state = refl;
      triggered = refl;
      storage_state = h;
    }
    with_latest-IsRun (ok current) s es c h =
        let confirmed = saturating_sub current network.confirmation_blocks in
        let pruned =
          storage.prune_old_missed_blocks now network.slug config.max_block_age confirmed s in
        let kept = i.prunes now config.max_block_age confirmed es s h in
        subst
          (λ r.
            IsRun
              (with_pruned storage rpc_client block_handler now network config confirmed
                (with_context "Failed to prune old missed blocks" r) pruned.1 c)
              (with_latest memory_storage rpc_client block_handler now network config (ok current)
                es c))
          (sym kept.0)
          (with_pruned-IsRun confirmed
            (length es - length (prune_old config.max_block_age confirmed es)) pruned.1
            (prune_old config.max_block_age confirmed es) c kept.1)

    -- Over a storage that keeps the contract of missed blocks, a run gives the same result, makes the
    -- same calls of the client and of the trigger handler, and leaves the storage with the same
    -- entries as the run over the list of entries that the storage holds.
    pub process_missed_blocks-IsRun :
        (s : S) (es : List MissedBlockEntry) (c : C)
        → holds es s
        → IsRun
            (process_missed_blocks storage rpc_client block_handler now network config s c)
            (process_missed_blocks memory_storage rpc_client block_handler now network config es c)
    unfolding process_missed_blocks
    process_missed_blocks-IsRun s es c h = with_latest-IsRun _ s es _ h
