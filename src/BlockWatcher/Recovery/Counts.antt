-- ===== src/BlockWatcher/Recovery/Counts.antt =====
-- src/services/blockwatcher/recovery.rs: the numbers that a run reports.
use openzeppelin_monitor.Prelude.{
  ℕ, suc, ◌+◌, ◌≡◌, ◌≤◌, refl, subst, List, [], ◌∷◌, none, some, String, leb, length, arith, inl,
  inr, Bool-cases, length-take, length-append,
}
use openzeppelin_monitor.Prelude.Result.{Result, ok, err}
use openzeppelin_monitor.Prelude.Word.{u32}
use openzeppelin_monitor.Models.Block.{BlockType, ProcessedBlock}
use openzeppelin_monitor.Models.Network.{Network, BlockRecoveryConfig}
use openzeppelin_monitor.BlockWatcher.Client.{BlockChainClient, BlockWatcherError}
use openzeppelin_monitor.BlockWatcher.Storage.{recovering, MissedBlockEntry, BlockStorage}
use openzeppelin_monitor.BlockWatcher.Recovery.{
  RecoveryResult, Progress, select, sort_by_number, give_up, recover, settle, attempt, attempt_all,
  remove_all, start, run, mark, with_missed, with_pruned, with_latest, process_missed_blocks,
}

-- `n` entries were attempted; no more than that were recovered or given up; and the trigger handler
-- was called for the recovered ones.
pub record IsTally {C M : Type 0} (n : ℕ) (p : Progress C M) : Type 0 where
  pub attempts : p.result.attempted ≡ n
  pub outcomes : p.result.recovered + p.result.failed ≤ n
  pub triggers : p.result.recovered ≡ length p.triggered

module _ {S C M : Type 0} (block_storage : BlockStorage S) (rpc_client : BlockChainClient C)
    (block_handler : BlockType → Network → ProcessedBlock M) (now : ℕ) (network : Network)
    (config : BlockRecoveryConfig) where
  -- An attempt that is counted and not settled yet.
  record IsOpen (n : ℕ) (p : Progress C M) : Type 0 where
    attempts : p.result.attempted ≡ suc n
    outcomes : p.result.recovered + p.result.failed ≤ n
    triggers : p.result.recovered ≡ length p.triggered

  give_up-IsTally :
      (e : MissedBlockEntry) (error : String) (n : ℕ) (ps : Progress C M × S)
      → IsOpen n ps.0
      → IsTally
          (suc n)
          (give_up block_storage rpc_client block_handler now network config e error ps).0
  unfolding give_up
  give_up-IsTally e error n (p, s) h =
      elim (Bool-cases (leb config.max_retries (u32 (e.retry_count + 1)))) [
        | inl t ↦ rw t (record {
          attempts = h.attempts;
          outcomes = omega (arith, h.outcomes);
          triggers = h.triggers;
        })
        | inr f ↦ rw f (record {
          attempts = h.attempts;
          outcomes = omega (arith, h.outcomes);
          triggers = h.triggers;
        })
      ]

  recover-IsTally :
      (e : MissedBlockEntry) (b : BlockType) (n : ℕ) (ps : Progress C M × S)
      → IsOpen n ps.0
      → IsTally (suc n) (recover block_storage rpc_client block_handler now network config e b ps).0
  unfolding recover
  recover-IsTally e b n (p, s) h = record {
    attempts = h.attempts;
    outcomes = omega (arith, h.outcomes);
    triggers = omega (arith, h.triggers, length-append p.triggered (block_handler b network ∷ []));
  }

  settle-IsTally :
      (e : MissedBlockEntry) (fetched : Result String (List BlockType)) (n : ℕ)
      (ps : Progress C M × S)
      → IsOpen n ps.0
      → IsTally
          (suc n)
          (settle block_storage rpc_client block_handler now network config e fetched ps).0
  unfolding settle
  settle-IsTally e (ok (b ∷ bs)) n ps h = recover-IsTally e b n ps h
  settle-IsTally e (ok []) n ps h = give_up-IsTally e "Block not found in RPC response" n ps h
  settle-IsTally e (err error) n ps h = give_up-IsTally e error n ps h

  attempt-IsTally :
      (e : MissedBlockEntry) (n : ℕ) (ps : Progress C M × S)
      → IsTally n ps.0
      → IsTally (suc n) (attempt block_storage rpc_client block_handler now network config e ps).0
  unfolding attempt
  attempt-IsTally e n (p, s) h =
      let fetched = rpc_client.get_blocks e.block_number (some e.block_number) p.client_state in
      settle-IsTally e fetched.0 n
        (
          record p {
            result = record (p.result) { attempted = p.result.attempted + 1 };
            client_state = fetched.1;
          },
          mark block_storage rpc_client block_handler now network config e.block_number recovering
              none s,
        )
        (record {
          attempts = omega (arith, h.attempts);
          outcomes = h.outcomes;
          triggers = h.triggers;
        })

  attempt_all-IsTally :
      (es : List MissedBlockEntry) (n : ℕ) (ps : Progress C M × S)
      → IsTally n ps.0
      → IsTally
          (n + length es)
          (attempt_all block_storage rpc_client block_handler now network config es ps).0
  unfolding attempt_all
  attempt_all-IsTally [] n ps h = subst (λ k. IsTally k ps.0) (omega arith) h
  attempt_all-IsTally (e ∷ es) n ps h =
      subst
        (λ k.
          IsTally k
            (attempt_all block_storage rpc_client block_handler now network config es
              (attempt block_storage rpc_client block_handler now network config e ps)).0)
        (omega arith) (attempt_all-IsTally es (suc n) _ (attempt-IsTally e n ps h))

  run-IsTally :
      (es : List MissedBlockEntry) (pruned : ℕ) (s : S) (c : C)
      → IsTally
          (length (select config es))
          (run block_storage rpc_client block_handler now network config es
            (start block_storage rpc_client block_handler now network config pruned c, s)).0
  unfolding run remove_all
  run-IsTally es pruned s c =
      let begun = start block_storage rpc_client block_handler now network config pruned c in
      subst
        (λ k.
          IsTally k
            (attempt_all block_storage rpc_client block_handler now network config
              (select config es) (begun, s)).0)
        (omega arith)
        (attempt_all-IsTally (select config es) 0 (begun, s)
          (record { attempts = refl; outcomes = omega arith; triggers = refl }))

  length-select :
      (es : List MissedBlockEntry) → length (select config es) ≤ config.max_blocks_per_run
  unfolding select
  length-select es = omega (arith, length-take config.max_blocks_per_run (sort_by_number es))

  -- What a run promises of its outcome: on success the counts are in order, and on an error the
  -- trigger handler was not called.
  abbrev pub IsCounted : Result BlockWatcherError RecoveryResult → List (ProcessedBlock M) → Type 0
  IsCounted (ok r) triggered =
      r.attempted ≤ config.max_blocks_per_run
      × r.recovered + r.failed ≤ r.attempted
      × r.recovered ≡ length triggered
  IsCounted (err e) triggered = triggered ≡ []

  run-IsCounted :
      (es : List MissedBlockEntry) (pruned : ℕ) (s : S) (c : C)
      → let p =
          (run block_storage rpc_client block_handler now network config es
            (start block_storage rpc_client block_handler now network config pruned c, s)).0 in
        IsCounted (ok p.result) p.triggered
  run-IsCounted es pruned s c =
      let t = run-IsTally es pruned s c in
      (
        omega (arith, t.attempts, length-select es),
        omega (arith, t.attempts, t.outcomes),
        t.triggers,
      )

  with_missed-IsCounted :
      (pruned : ℕ) (missed : Result BlockWatcherError (List MissedBlockEntry)) (s : S) (c : C)
      → let o =
          with_missed block_storage rpc_client block_handler now network config pruned missed s c in
        IsCounted o.result o.triggered
  with_missed-IsCounted pruned (err e) s c = refl
  with_missed-IsCounted pruned (ok es) s c = run-IsCounted es pruned s c

  with_pruned-IsCounted :
      (confirmed : ℕ) (pruned : Result BlockWatcherError ℕ) (s : S) (c : C)
      → let o =
          with_pruned block_storage rpc_client block_handler now network config confirmed pruned s
            c in
        IsCounted o.result o.triggered
  with_pruned-IsCounted confirmed (err e) s c = refl
  with_pruned-IsCounted confirmed (ok pruned) s c = with_missed-IsCounted pruned _ _ c

  with_latest-IsCounted :
      (latest : Result BlockWatcherError ℕ) (s : S) (c : C)
      → let o = with_latest block_storage rpc_client block_handler now network config latest s c in
        IsCounted o.result o.triggered
  with_latest-IsCounted (err e) s c = refl
  with_latest-IsCounted (ok current) s c = with_pruned-IsCounted _ _ _ c

  -- Whatever storage and client answer: on success at most `max_blocks_per_run` blocks were
  -- attempted, no more than that were recovered or given up, and the trigger handler was called
  -- once for each recovered block; on an error it was not called.
  pub process_missed_blocks-IsCounted :
      (s : S) (c : C)
      → let o =
          process_missed_blocks block_storage rpc_client block_handler now network config s c in
        IsCounted o.result o.triggered
  unfolding process_missed_blocks
  process_missed_blocks-IsCounted s c = with_latest-IsCounted _ s _
