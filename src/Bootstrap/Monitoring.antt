-- ===== src/Bootstrap/Monitoring.antt =====
-- A whole run over an EVM network: `process_new_blocks` of src/services/blockwatcher/service.rs with
-- the handlers of src/bootstrap/mod.rs and the filter of EVM blocks.
use openzeppelin_monitor.Prelude.{
  ◌≡◌, refl, not, mem-filter, arith, Bool, false, List, [], ◌∷◌, Option, some, String, ℕ, All,
  All-impl, All-unless, is_empty, Bool-cases, inl, inr, map, sym, subst,
}
use mathlib.Core.List.{Memᴰ, Permᴰ, Perm}
use mathlib.Core.Logic.{∥∥₁_map}
use openzeppelin_monitor.Prelude.Result.{Result, ok}
use openzeppelin_monitor.Models.Block.{BlockType, EvmBlock, ProcessedBlock}
use openzeppelin_monitor.Models.Block as Chain
use openzeppelin_monitor.Models.Monitor.{ContractSpec, ScriptLanguage, TriggerConditions, Monitor}
use openzeppelin_monitor.Models.Network.{Network, evm}
use openzeppelin_monitor.Models.NetworkConfig.{Cron, Unicode}
use openzeppelin_monitor.Models.Trigger.{Trigger}
use openzeppelin_monitor.Models.Evm.{MonitorMatch}
use openzeppelin_monitor.Filter.Evm.{Platform}
use openzeppelin_monitor.Filter.Evm.Abi.{Alloy}
use openzeppelin_monitor.Filter.Evm.Matching.{EvmClient}
use openzeppelin_monitor.Trigger.{TriggerError, Scripts, load_scripts}
use openzeppelin_monitor.BlockWatcher.Client.{BlockChainClient}
use openzeppelin_monitor.BlockWatcher.Storage.{BlockStorage}
use openzeppelin_monitor.BlockWatcher.Tracker.{BlockTracker}
use openzeppelin_monitor.BlockWatcher.Pipeline.Order.{IsBatch}
use openzeppelin_monitor.BlockWatcher.Service.{arrivals, process_new_blocks}
use openzeppelin_monitor.BlockWatcher.Service.Run.{
  Accepts, IsFetched, start_of, process_new_blocks-IsDone,
}
use openzeppelin_monitor.Bootstrap.{
  ClientPool, block_handler, filter_active_monitors, is_filtered, run_trigger_filters,
  handled_matches,
}
use openzeppelin_monitor.Bootstrap.Filters.{Passed, handled_matches-Passed}
use openzeppelin_monitor.Bootstrap.Handler.{Serves, evm_filter, block_handler-Serves}

All-Perm {ℓ κ} : {A : Type ℓ} (P : A → Type κ) {xs ys : List A} → Permᴰ xs ys → All P ys → All P xs
All-Perm P Permᴰ.nil h = tt
All-Perm P (Permᴰ.cons e d) (h, hs) = (subst P (sym e) h, All-Perm P d hs)
All-Perm P (Permᴰ.swap e f) (h, (k, hs)) = (subst P (sym e) k, (subst P (sym f) h, hs))
All-Perm P (Permᴰ.trans d e) h = All-Perm P d (All-Perm P e h)

All-map2 {ℓ κ μ ν} :
    {A : Type ℓ} {B : Type κ} {D : Type μ} (P : D → Type ν) (f : B → D) (g : A → B) (xs : List A)
    → ((x : A) → Memᴰ x xs → P (f (g x)))
    → All P (map f (map g xs))
All-map2 P f g [] h = tt
All-map2 P f g (x ∷ xs) h = (h x (Memᴰ.head refl), All-map2 P f g xs λ y m. h y (Memᴰ.tail m))

All-both {ℓ κ μ ν} :
    {A : Type ℓ} (P : A → Type κ) (Q : A → Type μ) (R : A → Type ν) (xs : List A)
    → ((x : A) → P x → Q x → R x)
    → All P xs
    → All Q xs
    → All R xs
All-both P Q R [] f h k = tt
All-both P Q R (x ∷ xs) f (h, hs) (k, ks) = (f x h k, All-both P Q R xs f hs ks)

module _ {M : Type 0} (unicode : Unicode) (monitor_of : M → Monitor)
    (run_script : ScriptLanguage → String → M → TriggerConditions → Result (Unit {0}) Bool) where
  -- The filters of the triggers only leave matches out.
  handled_matches-All :
      (P : M → Type 0) (block : ProcessedBlock M) (scripts : Scripts)
      → All P block.processing_results
      → All P (handled_matches unicode monitor_of run_script block scripts false)
  unfolding handled_matches run_trigger_filters
  handled_matches-All P block scripts h =
      All-unless P (is_empty block.processing_results) _ (kept block.processing_results h)
    where
      kept :
          (ms : List M)
          → All P ms
          → All P (run_trigger_filters unicode monitor_of run_script ms scripts)
      kept [] h = tt
      kept (m ∷ ms) (h, hs) =
          elim (Bool-cases (
            is_filtered unicode monitor_of run_script (monitor_of m).trigger_conditions m
              scripts)) [
                | inl dropped ↦ rw dropped (kept ms hs)
                | inr stays ↦ rw stays (h, kept ms hs)
              ]

not_paused_of :
    (configured : List (String × Monitor)) (monitor : Monitor)
    → Memᴰ monitor (filter_active_monitors configured)
    → monitor.paused ≡ false
unfolding filter_active_monitors
not_paused_of configured monitor m =
    let (_, active) =
      mem-filter (λ (n : Monitor). not n.paused) monitor (map (λ e. e.1) configured) m in
    ground (arith, active)

module _ (platform : Platform) (alloy : Alloy) (client : EvmClient)
    (specs : List (String × ContractSpec)) (configured : List (String × Monitor))
    (blocks : List EvmBlock) (slug : String) (scripts : Scripts)
    (run_script : ScriptLanguage
      → String
      → MonitorMatch
      → TriggerConditions
      → Result (Unit {0}) Bool) where
  -- The match is one of a block of the run and of a monitor of the configuration that is not paused, and
  -- it passes the monitor's scripts.
  pub record Delivered (m : MonitorMatch) : Type 0 where
    pub block : EvmBlock
    pub of_run : Memᴰ block blocks
    pub serves : Serves platform alloy client specs (filter_active_monitors configured) slug block m
    pub not_paused : serves.monitor.paused ≡ false
    pub passed : Passed platform.unicode (λ (m : MonitorMatch). m.monitor) run_script scripts m

  -- A processed block whose matches are all of one block of the run.
  abbrev Handled : ProcessedBlock MonitorMatch → Type 0
  Handled p =
      (block : EvmBlock) × Memᴰ block blocks
      × All (Serves platform alloy client specs (filter_active_monitors configured) slug block)
          p.processing_results

  handled_matches-Delivered :
      (read_to_string : String → Result TriggerError String) (get : String → Option Trigger)
      → load_scripts platform.unicode read_to_string get (filter_active_monitors configured)
        ≡ ok scripts
      → (p : ProcessedBlock MonitorMatch) → Handled p
      → All Delivered (
          handled_matches platform.unicode
            (λ (m : MonitorMatch). m.monitor)
            run_script
            p
            scripts
            false)
  handled_matches-Delivered read get loaded p (block, of_run, serve) =
      All-both (Serves platform alloy client specs (filter_active_monitors configured) slug block) _
        Delivered _
        (λ m serves passed. record {
          block = block;
          of_run = of_run;
          serves = serves;
          not_paused = not_paused_of configured serves.monitor serves.listed;
          passed = passed;
        })
        (handled_matches-All platform.unicode (λ (m : MonitorMatch). m.monitor) run_script _ p
          scripts serve)
        (handled_matches-Passed platform.unicode (λ (m : MonitorMatch). m.monitor) run_script read
          get (filter_active_monitors configured) scripts p false loaded
          (All-impl _ _ p.processing_results
            (λ m
                (s : Serves platform alloy client specs (filter_active_monitors configured) slug
                  block m).
              (s.monitor, s.listed, s.of_monitor))
            serve))

module _ {S C : Type 0} (cron : Cron) (storage : BlockStorage S) (rpc_client : BlockChainClient C)
    (finish_order : List (ProcessedBlock MonitorMatch) → List (ProcessedBlock MonitorMatch))
    (now : ℕ) (network : Network) (platform : Platform) (alloy : Alloy) (client : EvmClient)
    (configured : List (String × Monitor)) (pool : ClientPool MonitorMatch)
    (specs : List (String × ContractSpec))
    (run_script : ScriptLanguage
      → String
      → MonitorMatch
      → TriggerConditions
      → Result (Unit {0}) Bool) where
  -- A run over an EVM network with a client, which fetches its blocks and whose storage accepts what is
  -- written, with the scripts loaded for the monitors of the configuration that are not paused: every
  -- match that reaches its triggers is, for a block that the run fetched, a match of a transaction of
  -- it with a monitor that is configured for the network and not paused. A monitored address is among
  -- the addresses of the transaction and its logs; each condition that is reported is one that the
  -- monitor asks for and that fits, with an expression, if it has one, that evaluates to true; one of
  -- the monitor's transaction conditions, if it has any, and one of its event and function
  -- conditions, if it has any, is reported; and each of its scripts was loaded and did not answer
  -- true. The handlers finish in any order, and the blocks' numbers are distinct, not below the start
  -- block, and below the last 64-bit
  -- number.
  pub process_new_blocks-Delivers :
      (scripts : Scripts) (read_to_string : String → Result TriggerError String)
      (get : String → Option Trigger) (s : S) (c : C) (t : BlockTracker) (blocks : List EvmBlock)
      (f : IsFetched cron storage rpc_client
        (block_handler (filter_active_monitors configured) pool specs false)
        finish_order
        now
        network
        s
        c
        (ok (map Chain.evm blocks)))
      → load_scripts platform.unicode read_to_string get (filter_active_monitors configured)
        ≡ ok scripts
      → network.network_type ≡ evm
      → pool.get_evm_client network ≡ some (evm_filter platform alloy client)
      → Accepts storage network.slug
      → ((bs : List (ProcessedBlock MonitorMatch)) → Perm (finish_order bs) bs)
      → IsBatch
          (start_of cron storage rpc_client
            (block_handler (filter_active_monitors configured) pool specs false)
            finish_order
            now
            network
            s
            c
            (ok (map Chain.evm blocks))
            f)
          (arrivals cron storage rpc_client
            (block_handler (filter_active_monitors configured) pool specs false)
            finish_order
            now
            network
            (map Chain.evm blocks))
      → ∥ All
          (λ p.
            All
              (Delivered platform alloy client specs configured blocks network.slug scripts
                run_script)
              (handled_matches platform.unicode
                (λ (m : MonitorMatch). m.monitor)
                run_script
                p
                scripts
                false))
          (process_new_blocks cron storage rpc_client
            (block_handler (filter_active_monitors configured) pool specs false)
            finish_order
            now
            network
            s
            c
            t).triggered ∥₁
  process_new_blocks-Delivers scripts read get s c t blocks f loaded on_evm has_client accepts
        permutes batch =
      let handler = block_handler (filter_active_monitors configured) pool specs false in
      let done =
        process_new_blocks-IsDone cron storage rpc_client handler finish_order now network accepts
          permutes s c t (map Chain.evm blocks) f batch in
      ∥∥₁_map done.complete λ d.
        All-impl _ _ _
          (handled_matches-Delivered platform alloy client specs configured blocks network.slug
            scripts run_script read get loaded)
          (All-Perm _ d (
            All-map2 _ (λ b. handler b network) Chain.evm blocks
              λ b of_run. (
                b,
                of_run,
                block_handler-Serves platform alloy client (filter_active_monitors configured) pool
                    specs false b network on_evm has_client,
              )))
