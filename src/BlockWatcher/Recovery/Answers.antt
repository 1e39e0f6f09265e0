-- ===== src/BlockWatcher/Recovery/Answers.antt =====
-- What the answers of the client add to a recovery run (src/services/blockwatcher/recovery.rs).
use openzeppelin_monitor.Prelude.{
  ℕ, ◌+◌, ◌≡◌, refl, sym, subst, ap, ◌∙◌, Bool, true, false, List, [], ◌∷◌, ◌++◌, Option, none,
  some, String, leb, length, map, arith, if◌then◌else◌,
}
use mathlib.Core.List.{append-nil, append_assoc}
use openzeppelin_monitor.Prelude.Result.{Result, ok, err}
use openzeppelin_monitor.Prelude.Word.{u32}
use openzeppelin_monitor.Models.Block.{BlockType, ProcessedBlock}
use openzeppelin_monitor.Models.Network.{Network, BlockRecoveryConfig}
use openzeppelin_monitor.BlockWatcher.Client.{BlockChainClient}
use openzeppelin_monitor.BlockWatcher.Storage.{MissedBlockEntry, failed, pending, BlockStorage}
use openzeppelin_monitor.BlockWatcher.Recovery.{
  Progress, attempt, attempt_all, settle, recover, give_up, count_failure,
}

-- The block that an answer of the client holds.
abbrev pub first_block : Result String (List BlockType) → Option BlockType
first_block (ok (b ∷ bs)) = some b
first_block (ok []) = none
first_block (err e) = none

abbrev pub Answers : Type 0
Answers = List (MissedBlockEntry × Option BlockType)

-- The blocks that were returned, and their numbers.
abbrev pub found_blocks : Answers → List BlockType
found_blocks [] = []
found_blocks ((e, none) ∷ rest) = found_blocks rest
found_blocks ((e, some b) ∷ rest) = b ∷ found_blocks rest

abbrev pub found_numbers : Answers → List ℕ
found_numbers [] = []
found_numbers ((e, none) ∷ rest) = found_numbers rest
found_numbers ((e, some b) ∷ rest) = e.block_number ∷ found_numbers rest

-- How many blocks were not returned and have no retry left.
abbrev pub given_up : BlockRecoveryConfig → Answers → ℕ
given_up config [] = 0
given_up config ((e, none) ∷ rest) =
    (if leb config.max_retries (u32 (e.retry_count + 1)) then 1 else 0) + given_up config rest
given_up config ((e, some b) ∷ rest) = given_up config rest

module _ {C : Type 0} (rpc_client : BlockChainClient C) where
  -- The answers to the requests for the blocks of the entries, one after the other.
  abbrev pub answers : List MissedBlockEntry → C → Answers
  answers [] c = []
  answers (e ∷ es) c =
      let fetched = rpc_client.get_blocks e.block_number (some e.block_number) c in
      (e, first_block fetched.0) ∷ answers es fetched.1

  abbrev pub client_after : List MissedBlockEntry → C → C
  client_after [] c = c
  client_after (e ∷ es) c =
      client_after es (rpc_client.get_blocks e.block_number (some e.block_number) c).1

module _ {S C M : Type 0} (storage : BlockStorage S) (rpc_client : BlockChainClient C)
    (block_handler : BlockType → Network → ProcessedBlock M) (now : ℕ) (network : Network)
    (config : BlockRecoveryConfig) where
  -- What the answers add to the progress of a run.
  pub record Adds (p : Progress C M) (given : Answers) (c : C) (q : Progress C M) : Type 0 where
    pub attempted : q.result.attempted ≡ p.result.attempted + length given
    pub recovered : q.result.recovered ≡ p.result.recovered + length (found_blocks given)
    pub failed : q.result.failed ≡ p.result.failed + given_up config given
    pub pruned : q.result.pruned ≡ p.result.pruned
    pub numbers : q.recovered_blocks ≡ p.recovered_blocks ++ found_numbers given
    pub triggered :
        q.triggered ≡ p.triggered ++ map (λ b. block_handler b network) (found_blocks given)
    pub client_state : q.client_state ≡ c

  Adds-then :
      (p q r : Progress C M) (e : MissedBlockEntry) (o : Option BlockType) (given : Answers)
      (c d : C)
      → Adds p ((e, o) ∷ []) c q
      → Adds q given d r
      → Adds p ((e, o) ∷ given) d r
  Adds-then p q r e none given c d h k = record {
    attempted = omega (arith, h.attempted, k.attempted);
    recovered = omega (arith, h.recovered, k.recovered);
    failed = omega (arith, h.failed, k.failed);
    pruned = k.pruned ∙ h.pruned;
    numbers = k.numbers ∙ ap (λ l. l ++ found_numbers given) (h.numbers ∙ append-nil _);
    triggered =
        k.triggered
        ∙ ap (λ l. l ++ map (λ b. block_handler b network) (found_blocks given))
            (h.triggered ∙ append-nil _);
    client_state = k.client_state;
  }
  Adds-then p q r e (some b) given c d h k = record {
    attempted = omega (arith, h.attempted, k.attempted);
    recovered = omega (arith, h.recovered, k.recovered);
    failed = omega (arith, h.failed, k.failed);
    pruned = k.pruned ∙ h.pruned;
    numbers =
        k.numbers
        ∙ (ap (λ l. l ++ found_numbers given) h.numbers
            ∙ append_assoc p.recovered_blocks (e.block_number ∷ []) (found_numbers given));
    triggered =
        k.triggered
        ∙ (ap (λ l. l ++ map (λ b. block_handler b network) (found_blocks given)) h.triggered
            ∙ append_assoc p.triggered (block_handler b network ∷ [])
                (map (λ b. block_handler b network) (found_blocks given)));
    client_state = k.client_state;
  }

  -- The progress when the client has been asked.
  abbrev asked : Progress C M → C → Progress C M
  asked p c = record p {
    result = record (p.result) { attempted = p.result.attempted + 1 };
    client_state = c;
  }

  give_up-Adds :
      (e : MissedBlockEntry) (error : String) (p : Progress C M) (c : C) (s : S)
      → Adds p
          ((e, none) ∷ [])
          c
          (give_up storage rpc_client block_handler now network config e error (asked p c, s)).0
  unfolding give_up
  give_up-Adds e error p c s = record {
    attempted = counted (leb config.max_retries (u32 (e.retry_count + 1)));
    recovered = same (leb config.max_retries (u32 (e.retry_count + 1)));
    failed = ground arith;
    pruned = same_pruned (leb config.max_retries (u32 (e.retry_count + 1)));
    numbers = sym (append-nil p.recovered_blocks);
    triggered = sym (append-nil p.triggered);
    client_state = refl;
  }
    where
      counted :
          (b : Bool)
          → (count_failure storage rpc_client block_handler now network config
              (if b then failed else pending)
              (asked p c).result).attempted
            ≡ p.result.attempted + 1
      counted true = refl
      counted false = refl

      same :
          (b : Bool)
          → (count_failure storage rpc_client block_handler now network config
              (if b then failed else pending)
              (asked p c).result).recovered
            ≡ p.result.recovered + 0
      same true = omega arith
      same false = omega arith

      same_pruned :
          (b : Bool)
          → (count_failure storage rpc_client block_handler now network config
              (if b then failed else pending)
              (asked p c).result).pruned
            ≡ p.result.pruned
      same_pruned true = refl
      same_pruned false = refl

  settle-Adds :
      (e : MissedBlockEntry) (fetched : Result String (List BlockType)) (p : Progress C M) (c : C)
      (s : S)
      → Adds p
          ((e, first_block fetched) ∷ [])
          c
          (settle storage rpc_client block_handler now network config e fetched (asked p c, s)).0
  unfolding settle recover
  settle-Adds e (ok []) p c s = give_up-Adds e "Block not found in RPC response" p c s
  settle-Adds e (err error) p c s = give_up-Adds e error p c s
  settle-Adds e (ok (b ∷ bs)) p c s = record {
    attempted = refl;
    recovered = refl;
    failed = omega arith;
    pruned = refl;
    numbers = refl;
    triggered = refl;
    client_state = refl;
  }

  pub attempt_all-Adds :
      (es : List MissedBlockEntry) (p : Progress C M) (s : S)
      → Adds p
          (answers rpc_client es p.client_state)
          (client_after rpc_client es p.client_state)
          (attempt_all storage rpc_client block_handler now network config es (p, s)).0
  unfolding attempt_all attempt
  attempt_all-Adds [] p s = record {
    attempted = omega arith;
    recovered = omega arith;
    failed = omega arith;
    pruned = refl;
    numbers = sym (append-nil p.recovered_blocks);
    triggered = sym (append-nil p.triggered);
    client_state = refl;
  }
  attempt_all-Adds (e ∷ es) p s =
      let fetched = rpc_client.get_blocks e.block_number (some e.block_number) p.client_state in
      let x = attempt storage rpc_client block_handler now network config e (p, s) in
      let h = settle-Adds e fetched.0 p fetched.1 _ in
      Adds-then p x.0 _ e (first_block fetched.0) (answers rpc_client es fetched.1) fetched.1
        (client_after rpc_client es fetched.1) h
        (subst
          (λ c.
            Adds x.0 (answers rpc_client es c) (client_after rpc_client es c)
              (attempt_all storage rpc_client block_handler now network config es x).0)
          h.client_state (attempt_all-Adds es x.0 x.1))
