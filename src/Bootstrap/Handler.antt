-- ===== src/Bootstrap/Handler.antt =====
-- The handler of blocks over the filter of EVM blocks (src/bootstrap/mod.rs with
-- src/services/filter/filters/evm/filter.rs).
use openzeppelin_monitor.Prelude.{
  ◌≡◌, refl, ap, ◌∙◌, subst, sym, Bool, true, false, List, [], some, String, All, All-impl,
  All-unless, mem-filter, is_empty,
}
use mathlib.Core.List.{Memᴰ}
use openzeppelin_monitor.Prelude.Result.{Result, ok, err}
use openzeppelin_monitor.Models.Block.{BlockType, EvmBlock, unwrap_or, ProcessedBlock}
use openzeppelin_monitor.Models.Block as Chain
use openzeppelin_monitor.Models.Monitor.{ContractSpec, Monitor}
use openzeppelin_monitor.Models.Network.{Network, evm}
use openzeppelin_monitor.Models.Evm.{Log, MonitorMatch}
use openzeppelin_monitor.Filter.Evm.{Platform}
use openzeppelin_monitor.Filter.Evm.Abi.{Alloy}
use openzeppelin_monitor.Filter.Evm.Events.{FilterError}
use openzeppelin_monitor.Filter.Evm.Block.{filter_block}
use openzeppelin_monitor.Filter.Evm.Matching.{EvmClient, evm_specs, without_specs}
use openzeppelin_monitor.Filter.Evm.Block.Sound.{IsMatch, filter_block-IsMatch}
use openzeppelin_monitor.Filter.Evm.Block.Meets.{Meets}
use openzeppelin_monitor.Filter.Evm.Block.Evidence.{Evidence}
use openzeppelin_monitor.Bootstrap.{
  BlockFilter, ClientPool, contains_slug, filter_network_monitors, ok_result, process_block,
  block_handler, with_client, client_of,
}

-- The monitor of the match is of the list and configured for the network, the transaction is one of the
-- block, and what is reported of it holds and is what the monitor asks for.
pub record Serves (platform : Platform) (alloy : Alloy) (client : EvmClient)
    (specs : List (String × ContractSpec)) (active : List Monitor) (slug : String)
    (block : EvmBlock) (m : MonitorMatch) : Type 0 where
  pub monitor : Monitor
  pub listed : Memᴰ monitor active
  pub on_network : contains_slug monitor.networks slug ≡ true
  pub of_monitor : m.monitor ≡ without_specs monitor
  pub of_block : Memᴰ m.transaction (alloy.transactions block)
  pub of_network : m.network_slug ≡ slug
  pub block_logs : List Log
  pub got_logs :
      client.get_logs_for_blocks (unwrap_or 0 block.number) (unwrap_or 0 block.number)
      ≡ ok block_logs
  pub evidence : Evidence platform alloy (evm_specs specs) block_logs monitor m
  pub meets : Meets monitor.match_conditions m.matched_on

module _ (platform : Platform) (alloy : Alloy) (client : EvmClient) where
  abbrev pub evm_filter : BlockFilter MonitorMatch
  evm_filter network block monitors contract_specs =
      filter_block platform alloy client network.slug block monitors contract_specs

  Serves-of_IsMatch :
      (specs : List (String × ContractSpec)) (active : List Monitor) (slug : String)
      (block : EvmBlock) (logs : List Log)
      → client.get_logs_for_blocks (unwrap_or 0 block.number) (unwrap_or 0 block.number) ≡ ok logs
      → (m : MonitorMatch)
      → IsMatch platform alloy client slug
          (evm_specs specs)
          logs
          (filter_network_monitors active slug)
          (alloy.transactions block)
          m
      → Serves platform alloy client specs active slug block m
  unfolding filter_network_monitors
  Serves-of_IsMatch specs active slug block logs got m found =
      let (listed, on_network) =
        mem-filter (λ n. contains_slug n.networks slug) found.monitor active found.listed in
      record {
        monitor = found.monitor;
        listed = listed;
        on_network = on_network;
        of_monitor = found.of_monitor;
        of_block = found.of_block;
        of_network = found.of_network;
        block_logs = logs;
        got_logs = got;
        evidence = found.evidence;
        meets = found.meets;
      }

  -- A result of the filter, or nothing after an error.
  processed-Serves :
      (active : List Monitor) (network : Network) (block : EvmBlock)
      (specs : List (String × ContractSpec)) (shut_down : Bool)
      → All (Serves platform alloy client specs active network.slug block) (
          unwrap_or [] (
            process_block evm_filter network
              (Chain.evm block)
              (filter_network_monitors active network.slug)
              (some specs)
              shut_down))
  unfolding process_block
  processed-Serves active network block specs true = tt
  processed-Serves active network block specs false =
      of_result
        (evm_filter network (Chain.evm block) (filter_network_monitors active network.slug)
          (some specs))
        refl
    where
      of_result :
          (r : Result FilterError (List MonitorMatch))
          → filter_block platform alloy client network.slug
              (Chain.evm block)
              (filter_network_monitors active network.slug)
              (some specs)
            ≡ r
          → All
              (Serves platform alloy client specs active network.slug block)
              (unwrap_or [] (ok_result r))
      of_result (err x) e = tt
      of_result (ok matches) e =
          let (logs, got, sound) =
            filter_block-IsMatch platform alloy client network.slug block
              (filter_network_monitors active network.slug) (some specs) matches e in
          All-impl _ _ matches (Serves-of_IsMatch specs active network.slug block logs got) sound

  -- On an EVM network with a client, everything that the handler reports of a block is a match of an
  -- monitor of the list that is configured for the network, with a transaction of the block, and is
  -- what the monitor asks for.
  pub block_handler-Serves :
      (active : List Monitor) (pool : ClientPool MonitorMatch)
      (specs : List (String × ContractSpec)) (shut_down : Bool) (block : EvmBlock)
      (network : Network)
      → network.network_type ≡ evm
      → pool.get_evm_client network ≡ some evm_filter
      → All
          (Serves platform alloy client specs active network.slug block)
          (block_handler active pool specs shut_down (Chain.evm block) network).processing_results
  unfolding block_handler
  block_handler-Serves active pool specs shut_down block network on_evm has_client =
      All-unless _ (is_empty (filter_network_monitors active network.slug)) _ (
        subst
          (λ o. All (Serves platform alloy client specs active network.slug block) (
            unwrap_or [] (
              with_client o network (Chain.evm block) (filter_network_monitors active network.slug)
                specs shut_down)))
          (sym (ap (λ t. client_of pool t network) on_evm ∙ has_client))
          (processed-Serves active network block specs shut_down))
