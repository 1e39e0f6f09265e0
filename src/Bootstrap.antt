-- ===== src/Bootstrap.antt =====
-- src/bootstrap/mod.rs: the choice of the monitors of a network, the handler of blocks and that of
-- triggers. `M` is the type of a monitor match. Where a task waits for its work or the shutdown
-- signal, `shut_down` tells that the signal came first.
pub mod Active
pub mod Filters
pub mod Handler
pub mod Monitoring
use openzeppelin_monitor.Prelude.{
  ℕ, Bool, true, false, not, ◌&&◌, List, [], ◌∷◌, Option, none, some, String, str_eq, any, filter,
  map, is_empty, if◌then◌else◌,
}
use openzeppelin_monitor.Prelude.Dict.{lookup}
use openzeppelin_monitor.Prelude.Result.{Result, ok, err}
use openzeppelin_monitor.Models.Block.{BlockType, ProcessedBlock, number, unwrap_or}
use openzeppelin_monitor.Models.Monitor.{ContractSpec, ScriptLanguage, TriggerConditions, Monitor}
use openzeppelin_monitor.Models.Network.{Network, BlockChainType, evm, stellar, midnight, solana}
use openzeppelin_monitor.Models.NetworkConfig.{Unicode}
use openzeppelin_monitor.Filter.Evm.Events.{FilterError}
use openzeppelin_monitor.Trigger.{Scripts, script_key}

abbrev pub contains_slug : List String → String → Bool
contains_slug slugs slug = any (λ s. str_eq s slug) slugs

unfoldable pub has_active_monitors : List Monitor → String → Bool
has_active_monitors monitors network_slug =
    any (λ m. contains_slug m.networks network_slug && not m.paused) monitors

-- The values of the dictionary.
unfoldable pub filter_active_monitors : List (String × Monitor) → List Monitor
filter_active_monitors monitors = filter (λ m. not m.paused) (map (λ e. e.1) monitors)

unfoldable pub filter_network_monitors : List Monitor → String → List Monitor
filter_network_monitors monitors network_slug =
    filter (λ m. contains_slug m.networks network_slug) monitors

module _ (M : Type 0) where
  -- The filter over a client of a chain.
  abbrev pub BlockFilter : Type 0
  BlockFilter =
      Network
      → BlockType
      → List Monitor
      → Option (List (String × ContractSpec))
      → Result FilterError (List M)

  -- None if there is no client for the network.
  pub record ClientPool : Type 0 where
    pub get_evm_client : Network → Option BlockFilter
    pub get_stellar_client : Network → Option BlockFilter
    pub get_midnight_client : Network → Option BlockFilter
    pub get_solana_client : Network → Option BlockFilter

module _ {M : Type 0} where
  -- `result.ok()`.
  abbrev pub ok_result : Result FilterError (List M) → Option (List M)
  ok_result (ok r) = some r
  ok_result (err e) = none

  unfoldable pub process_block :
      BlockFilter M
      → Network
      → BlockType
      → List Monitor
      → Option (List (String × ContractSpec))
      → Bool
      → Option (List M)
  process_block client network block applicable_monitors contract_specs shut_down =
      if shut_down
      then none
      else ok_result (client network block applicable_monitors contract_specs)

  abbrev pub client_of : ClientPool M → BlockChainType → Network → Option (BlockFilter M)
  client_of pool evm network = pool.get_evm_client network
  client_of pool stellar network = pool.get_stellar_client network
  client_of pool midnight network = pool.get_midnight_client network
  client_of pool solana network = pool.get_solana_client network

  abbrev pub with_client :
      Option (BlockFilter M)
      → Network
      → BlockType
      → List Monitor
      → List (String × ContractSpec)
      → Bool
      → Option (List M)
  with_client none network block monitors contract_specs shut_down = none
  with_client (some client) network block monitors contract_specs shut_down =
      process_block client network block monitors (some contract_specs) shut_down

  -- The handler that `create_block_handler` returns.
  unfoldable pub block_handler :
      List Monitor
      → ClientPool M
      → List (String × ContractSpec)
      → Bool
      → BlockType
      → Network
      → ProcessedBlock M
  unfolding filter_network_monitors process_block
  block_handler active_monitors client_pools contract_specs shut_down block network =
      let applicable_monitors = filter_network_monitors active_monitors network.slug in
      record {
        block_number = unwrap_or 0 (number block);
        network_slug = network.slug;
        processing_results =
            if is_empty applicable_monitors
            then []
            else unwrap_or [] (
                with_client (client_of client_pools network.network_type network) network block
                  applicable_monitors contract_specs shut_down);
      }

  -- `execute` runs a script on a match; `monitor_of` is the monitor in it.
  module _ (unicode : Unicode) (monitor_of : M → Monitor)
      (run_script : ScriptLanguage → String → M → TriggerConditions → Result (Unit {0}) Bool) where
    abbrev pub verdict : Result (Unit {0}) Bool → Bool
    verdict (ok b) = b
    verdict (err e) = false

    unfoldable pub execute_trigger_condition :
        TriggerConditions → M → ScriptLanguage × String → Bool
    execute_trigger_condition trigger_condition monitor_match (language, content) =
        verdict (run_script language content monitor_match trigger_condition)

    -- A condition without a script filters nothing.
    abbrev pub with_script : Option (ScriptLanguage × String) → TriggerConditions → M → Bool
    with_script none trigger_condition monitor_match = false
    with_script (some script_content) trigger_condition monitor_match =
        execute_trigger_condition trigger_condition monitor_match script_content

    -- The loop over the conditions, which a true verdict ends.
    unfoldable pub is_filtered : List TriggerConditions → M → Scripts → Bool
    unfolding execute_trigger_condition
    is_filtered [] monitor_match trigger_scripts = false
    is_filtered (trigger_condition ∷ rest) monitor_match trigger_scripts =
        let others = is_filtered rest monitor_match trigger_scripts in
        let script_content =
          lookup (script_key unicode (monitor_of monitor_match).name trigger_condition.script_path)
            trigger_scripts in
        if with_script script_content trigger_condition monitor_match then true else others

    unfoldable pub run_trigger_filters : List M → Scripts → List M
    unfolding is_filtered
    run_trigger_filters [] trigger_scripts = []
    run_trigger_filters (monitor_match ∷ rest) trigger_scripts =
        let filtered_matches = run_trigger_filters rest trigger_scripts in
        if not
          (is_filtered (monitor_of monitor_match).trigger_conditions monitor_match trigger_scripts)
        then monitor_match ∷ filtered_matches
        else filtered_matches

    -- The matches that the handler of `create_trigger_handler` hands on, in order.
    unfoldable pub handled_matches : ProcessedBlock M → Scripts → Bool → List M
    unfolding run_trigger_filters
    handled_matches block trigger_scripts shut_down =
        if shut_down
        then []
        else if is_empty block.processing_results
        then []
        else run_trigger_filters block.processing_results trigger_scripts
