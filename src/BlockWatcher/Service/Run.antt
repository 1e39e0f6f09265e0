-- ===== src/BlockWatcher/Service/Run.antt =====
-- src/services/blockwatcher/service.rs, `process_new_blocks`: what a run does that can fetch its blocks.
use openzeppelin_monitor.Prelude.{
  ℕ, ◌≡◌, sym, ap, ◌∙◌, subst, List, Option, some, String, arith, Bool-cases, inl, inr, map,
}
use openzeppelin_monitor.Prelude.Word.{saturating_sub}
use openzeppelin_monitor.Prelude.Result.{Result, ok}
use openzeppelin_monitor.Prelude.Sorted.{IsAscending}
use openzeppelin_monitor.Models.Block.{BlockType, ProcessedBlock, unwrap_or}
use openzeppelin_monitor.Models.Network.{Network}
use openzeppelin_monitor.Models.NetworkConfig.{Cron}
use openzeppelin_monitor.BlockWatcher.Client.{BlockChainClient, with_context}
use openzeppelin_monitor.BlockWatcher.Storage.{BlockStorage}
use openzeppelin_monitor.BlockWatcher.Tracker.{
  BlockTracker, detect_missing_blocks, reset_expected_next,
}
use openzeppelin_monitor.BlockWatcher.Pipeline.{Stage}
use openzeppelin_monitor.BlockWatcher.Pipeline.Buffer.{key}
use openzeppelin_monitor.BlockWatcher.Pipeline.Order.{IsBatch, trigger_stage_in_order}
use openzeppelin_monitor.BlockWatcher.Service.{
  returned, Outcome, start_block_of, max_past_blocks_of, stores_blocks, save_last, after_save,
  after_delete, store, arrivals, pipeline, after_missed, save_missed, after_fetch, fetch,
  after_bound, after_latest, after_last, process_new_blocks,
}
use mathlib.Core.List.{Perm}
use mathlib.Core.List.Perm

-- A storage whose writes succeed, and which returns the number that was saved last.
pub record Accepts {S : Type 0} (storage : BlockStorage S) (slug : String) : Type 0 where
  pub saves_missed :
      (now : ℕ) (ns : List ℕ) (s : S) → (storage.save_missed_blocks now slug ns s).0 ≡ ok tt
  pub deletes : (s : S) → (storage.delete_blocks slug s).0 ≡ ok tt
  pub saves_blocks :
      (now : ℕ) (bs : List BlockType) (s : S) → (storage.save_blocks now slug bs s).0 ≡ ok tt
  pub saves_last : (n : ℕ) (s : S) → (storage.save_last_processed_block slug n s).0 ≡ ok tt
  pub keeps_last :
      (n : ℕ) (s : S)
      → (storage.get_last_processed_block slug (storage.save_last_processed_block slug n s).1).0
        ≡ ok (some n)

module _ {S C M : Type 0} (cron : Cron) (storage : BlockStorage S) (rpc_client : BlockChainClient C)
    (block_handler : BlockType → Network → ProcessedBlock M)
    (finish_order : List (ProcessedBlock M) → List (ProcessedBlock M)) (now : ℕ)
    (network : Network) where
  -- The run ended well, with these blocks handled in ascending order and this number saved.
  pub record IsDone (blocks : List BlockType) (confirmed : ℕ) (o : Outcome S C M) : Type 0 where
    pub ended : o.ended ≡ returned (ok tt)
    pub in_order : IsAscending key o.triggered
    pub complete : Perm o.triggered (map (λ b. block_handler b network) blocks)
    pub saved :
        (storage.get_last_processed_block network.slug o.storage_state).0 ≡ ok (some confirmed)

  -- The calls of one run before its blocks are handled, and what they return.
  pub record IsFetched (s : S) (c : C) (fetched : Result String (List BlockType)) : Type 0 where
    pub last : Option ℕ
    pub latest : ℕ
    pub bound : ℕ
    pub gets_last : (storage.get_last_processed_block network.slug s).0 ≡ ok last
    pub gets_latest : (rpc_client.get_latest_block_number c).0 ≡ ok latest
    pub has_bound : max_past_blocks_of cron network ≡ some bound
    pub fetches :
        let confirmed = saturating_sub latest network.confirmation_blocks in
        (fetch cron storage rpc_client block_handler finish_order now network
          (unwrap_or 0 last)
          confirmed
          (start_block_of (unwrap_or 0 last) confirmed bound)
          (rpc_client.get_latest_block_number c).1).0
        ≡ fetched

  module _ (s : S) (c : C) (fetched : Result String (List BlockType)) where
    abbrev pub confirmed_of : IsFetched s c fetched → ℕ
    confirmed_of f = saturating_sub f.latest network.confirmation_blocks

    abbrev pub start_of : IsFetched s c fetched → ℕ
    start_of f = start_block_of (unwrap_or 0 f.last) (confirmed_of f) f.bound

    -- The state of the client after the calls.
    abbrev pub client_of : IsFetched s c fetched → C
    client_of f =
        (fetch cron storage rpc_client block_handler finish_order now network (unwrap_or 0 f.last)
          (confirmed_of f) (start_of f) (rpc_client.get_latest_block_number c).1).1

    -- After these calls the run goes on with what was fetched.
    pub run_of_IsFetched :
        (t : BlockTracker) (f : IsFetched s c fetched)
        → process_new_blocks cron storage rpc_client block_handler finish_order now network s c t
          ≡ after_fetch cron storage rpc_client block_handler finish_order now network
              (start_of f)
              (confirmed_of f)
              fetched
              (storage.get_last_processed_block network.slug s).1
              (client_of f)
              t
    unfolding process_new_blocks
    run_of_IsFetched t f =
        let s' = (storage.get_last_processed_block network.slug s).1 in
        let c' = (rpc_client.get_latest_block_number c).1 in
        ap (λ r. after_last cron storage rpc_client block_handler finish_order now network r s' c t)
          f.gets_last
        ∙ (ap
              (λ r.
                after_latest cron storage rpc_client block_handler finish_order now network
                  (unwrap_or 0 f.last) r s' c' t)
              f.gets_latest
            ∙ (ap
                  (λ m.
                    after_bound cron storage rpc_client block_handler finish_order now network
                      (unwrap_or 0 f.last) (confirmed_of f) m s' c' t)
                  f.has_bound
                ∙ ap
                    (λ r.
                      after_fetch cron storage rpc_client block_handler finish_order now network
                        (start_of f) (confirmed_of f) r s' (client_of f) t)
                    f.fetches))

  module _ (accepts : Accepts storage network.slug)
      (permutes : (bs : List (ProcessedBlock M)) → Perm (finish_order bs) bs) where
    save_last-IsDone :
        (blocks : List BlockType) (confirmed : ℕ) (s : S) (c : C) (stage : Stage M)
        → IsAscending key stage.triggered
        → Perm stage.triggered (map (λ b. block_handler b network) blocks)
        → IsDone blocks confirmed (
            save_last cron storage rpc_client block_handler finish_order now network confirmed s c
              stage)
    unfolding save_last
    save_last-IsDone blocks confirmed s c stage a p = record {
      ended =
          ap (λ r. returned (with_context "Failed to save last processed block" r))
            (accepts.saves_last confirmed s);
      in_order = a;
      complete = p;
      saved = accepts.keeps_last confirmed s;
    }

    store-IsDone :
        (blocks : List BlockType) (confirmed : ℕ) (s : S) (c : C) (stage : Stage M)
        → IsAscending key stage.triggered
        → Perm stage.triggered (map (λ b. block_handler b network) blocks)
        → IsDone blocks confirmed (
            store cron storage rpc_client block_handler finish_order now network confirmed blocks s
              c stage)
    unfolding store
    store-IsDone blocks confirmed s c stage a p = elim (Bool-cases (stores_blocks network)) [
      | inl e ↦
          let deleted = storage.delete_blocks network.slug s in
          let saved = storage.save_blocks now network.slug blocks deleted.1 in
          rw e (
            subst (IsDone blocks confirmed)
              (sym (
                ap
                  (λ r.
                    after_delete cron storage rpc_client block_handler finish_order now network
                      confirmed blocks r deleted.1 c stage)
                  (accepts.deletes s)
                ∙ ap
                    (λ r.
                      after_save cron storage rpc_client block_handler finish_order now network
                        confirmed r saved.1 c stage)
                    (accepts.saves_blocks now blocks deleted.1)))
              (save_last-IsDone blocks confirmed saved.1 c stage a p))
      | inr e ↦ rw e (save_last-IsDone blocks confirmed s c stage a p)
    ]

    save_missed-ok :
        (ns : List ℕ) (s : S)
        → (save_missed cron storage rpc_client block_handler finish_order now network ns s).0
          ≡ ok tt
    unfolding save_missed
    save_missed-ok ns s = ground (arith, accepts.saves_missed now ns s)

    pipeline_lem :
        (start : ℕ) (blocks : List BlockType) (t : BlockTracker)
        → IsBatch start
            (arrivals cron storage rpc_client block_handler finish_order now network blocks)
        → let stage =
            pipeline cron storage rpc_client block_handler finish_order now network start blocks
              t in
          IsAscending key stage.triggered
          × Perm stage.triggered (map (λ b. block_handler b network) blocks)
    unfolding pipeline
    pipeline_lem start blocks t batch =
        let (a, p) =
          trigger_stage_in_order network start t
            (arrivals cron storage rpc_client block_handler finish_order now network blocks)
            batch in
        (a, Perm.trans p (permutes (map (λ b. block_handler b network) blocks)))

    -- A run over a storage that accepts what is written, whose calls return blocks that the
    -- handlers turn into a batch (distinct numbers, from the start block on, below the last 64-bit
    -- number), ends well: the trigger handler is called with every block, once, in ascending
    -- order, whatever the order in which the handlers finish, and the latest confirmed block is
    -- saved as the last processed one.
    pub process_new_blocks-IsDone :
        (s : S) (c : C) (t : BlockTracker) (blocks : List BlockType) (f : IsFetched s c (ok blocks))
        → IsBatch
            (start_of s c (ok blocks) f)
            (arrivals cron storage rpc_client block_handler finish_order now network blocks)
        → IsDone blocks (confirmed_of s c (ok blocks) f) (
            process_new_blocks cron storage rpc_client block_handler finish_order now network s c t)
    process_new_blocks-IsDone s c t blocks f batch =
        let s' = (storage.get_last_processed_block network.slug s).1 in
        let start = start_of s c (ok blocks) f in
        let reset = reset_expected_next t network start in
        let missed = detect_missing_blocks blocks in
        let saved =
          save_missed cron storage rpc_client block_handler finish_order now network missed s' in
        let stage =
          pipeline cron storage rpc_client block_handler finish_order now network start blocks
            reset in
        subst (IsDone blocks (confirmed_of s c (ok blocks) f))
          (sym (
            run_of_IsFetched s c (ok blocks) t f
            ∙ ap
                (λ r.
                  after_missed cron storage rpc_client block_handler finish_order now network start
                    (confirmed_of s c (ok blocks) f) blocks r saved.1 (client_of s c (ok blocks) f)
                    reset)
                (save_missed-ok missed s')))
          (store-IsDone blocks (confirmed_of s c (ok blocks) f) saved.1
            (client_of s c (ok blocks) f) stage (pipeline_lem start blocks reset batch).0
            (pipeline_lem start blocks reset batch).1)
