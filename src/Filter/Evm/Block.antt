-- ===== src/Filter/Evm/Block.antt =====
-- src/services/filter/filters/evm/filter.rs: `filter_block`. The client's two calls are functions
-- whose failure is an error; a match with a missing number stands for block 0, as in the source.
pub mod Logs
pub mod Evidence
pub mod Meets
pub mod Sound
pub mod Failed
use Prim.Native.String.{compare}
use Prim.Native.Nat.{Ordering}
use openzeppelin_monitor.Prelude.{
  ℕ, Bool, true, false, not, ◌&&◌, ◌||◌, List, [], ◌∷◌, ◌++◌, Option, none, some, String, str_eq,
  any, is_empty, map, ◌==◌, if◌then◌else◌,
}
use openzeppelin_monitor.Prelude.Dict.{lookup, insert}
use openzeppelin_monitor.Prelude.Result.{Result, ok, err, ◌>>=◌}
use openzeppelin_monitor.Models.Block.{unwrap_or, BlockType, EvmBlock}
use openzeppelin_monitor.Models.Block as Chain
use openzeppelin_monitor.Models.Monitor.{
  ContractSpec, AddressWithSpec, MatchConditions, TransactionCondition, TransactionStatus, success,
  failure, Monitor,
}
use openzeppelin_monitor.Models.Monitor as Core
use openzeppelin_monitor.Models.Evm.{
  Transaction, TransactionReceipt, Log, MatchArguments, MonitorMatch,
}
use openzeppelin_monitor.Filter.Evm.{Platform}
use openzeppelin_monitor.Filter.Evm.Abi.{Alloy}
use openzeppelin_monitor.Filter.Evm.Helpers.{normalize_address}
use openzeppelin_monitor.Filter.Evm.Conditions.{
  h160_to_string, b256_to_string, find_matching_transaction, needs_receipt,
}
use openzeppelin_monitor.Filter.Evm.Calls.{Calls, find_matching_functions_for_transaction}
use openzeppelin_monitor.Filter.Evm.Events.{
  FilterError, block_type_mismatch, EventMatches, find_matching_events_for_transaction,
}
use openzeppelin_monitor.Filter.Evm.Matching.{
  EvmClient, evm_specs, log_key, group_logs, receipt_status, address_list, sort, dedup,
  should_match, kept_if, args_if, without_spec, without_specs,
}

module _ (platform : Platform) (alloy : Alloy) (client : EvmClient) (network_slug : String) where
  unfoldable pub has_address_match : Monitor → List String → Bool
  unfolding normalize_address
  has_address_match monitor involved_addresses =
      any
        (λ addr.
          any (λ a. str_eq (normalize_address platform a) (normalize_address platform addr.address))
            involved_addresses)
        monitor.addresses

  abbrev pub has_event_match : Monitor → EventMatches → Bool
  has_event_match monitor events =
      not (is_empty monitor.match_conditions.events) && not (is_empty events.matched_events)

  abbrev pub has_function_match : Monitor → Calls → Bool
  has_function_match monitor calls =
      not (is_empty monitor.match_conditions.functions) && not (is_empty calls.matched_functions)

  abbrev pub has_transaction_match : Monitor → List TransactionCondition → Bool
  has_transaction_match monitor transactions =
      not (is_empty monitor.match_conditions.transactions) && not (is_empty transactions)

  abbrev pub the_match :
      Monitor
      → Transaction
      → Option TransactionReceipt
      → List Log
      → EventMatches
      → Calls
      → List TransactionCondition
      → MonitorMatch
  the_match monitor transaction receipt logs events calls transactions =
      let event = has_event_match monitor events in
      let function = has_function_match monitor calls in
      record {
        monitor = without_specs monitor;
        transaction = transaction;
        receipt = receipt;
        logs = some logs;
        network_slug = network_slug;
        matched_on = record {
          events = kept_if event events.matched_events;
          functions = kept_if function calls.matched_functions;
          transactions = kept_if (has_transaction_match monitor transactions) transactions;
        };
        matched_on_args = some (record {
          events = args_if event events.events;
          functions = args_if function calls.functions;
        });
      }

  -- The match of a transaction, if its addresses and its conditions give one.
  unfoldable pub decide :
      Monitor
      → Transaction
      → Option TransactionReceipt
      → List Log
      → EventMatches
      → Calls
      → List TransactionCondition
      → List MonitorMatch
  unfolding has_address_match should_match sort dedup
  decide monitor transaction receipt logs events calls transactions =
      if has_address_match monitor (dedup (sort events.involved_addresses))
      then (if should_match monitor.match_conditions (has_event_match monitor events)
            (has_function_match monitor calls) (has_transaction_match monitor transactions)
          then the_match monitor transaction receipt logs events calls transactions ∷ []
          else [])
      else []

  abbrev pub fetch_receipt : Bool → String → Result FilterError (Option TransactionReceipt)
  fetch_receipt false tx_hash = ok none
  fetch_receipt true tx_hash = do
    receipt ← client.get_transaction_receipt tx_hash
    ok (some receipt)

  abbrev pub tx_logs : List (String × List Log) → Transaction → List Log
  tx_logs logs_by_tx transaction =
      unwrap_or [] (lookup (b256_to_string transaction.hash) logs_by_tx)

  abbrev pub found_events : List Log → Monitor → Transaction → Result FilterError EventMatches
  found_events logs monitor transaction =
      find_matching_events_for_transaction platform alloy logs monitor (record {
        matched_events = [];
        events = some [];
        involved_addresses = address_list transaction.sender ++ address_list transaction.to;
      })

  -- One transaction against one monitor.
  unfoldable pub filter_transaction :
      List (String × String)
      → List (String × List Log)
      → Bool
      → Monitor
      → Transaction
      → Result FilterError (List MonitorMatch)
  unfolding decide receipt_status
  filter_transaction contract_specs logs_by_tx should_fetch_receipt monitor transaction =
      let logs = tx_logs logs_by_tx transaction in
      do
        receipt ← fetch_receipt should_fetch_receipt (b256_to_string transaction.hash)
        events ← found_events logs monitor transaction
        let transactions =
            find_matching_transaction platform alloy (receipt_status receipt) transaction receipt
              monitor []
        let calls =
            find_matching_functions_for_transaction platform alloy contract_specs transaction
              monitor (record { matched_functions = []; functions = some [] })
        ok (decide monitor transaction receipt logs events calls transactions)

  -- The two loops; the results of the rounds stand one after the other.
  unfoldable pub filter_transactions :
      List (String × String)
      → List (String × List Log)
      → Bool
      → Monitor
      → List Transaction
      → Result FilterError (List MonitorMatch)
  unfolding filter_transaction
  filter_transactions contract_specs logs_by_tx fetch monitor [] = ok []
  filter_transactions contract_specs logs_by_tx fetch monitor (transaction ∷ rest) = do
    found ← filter_transaction contract_specs logs_by_tx fetch monitor transaction
    others ← filter_transactions contract_specs logs_by_tx fetch monitor rest
    ok (found ++ others)

  unfoldable pub filter_monitors :
      List (String × String)
      → List Log
      → List Transaction
      → List Monitor
      → Result FilterError (List MonitorMatch)
  unfolding filter_transactions group_logs
  filter_monitors contract_specs all_block_logs transactions [] = ok []
  filter_monitors contract_specs all_block_logs transactions (monitor ∷ rest) = do
    found ←
        filter_transactions contract_specs (group_logs all_block_logs [])
          (needs_receipt platform alloy monitor all_block_logs) monitor transactions
    others ← filter_monitors contract_specs all_block_logs transactions rest
    ok (found ++ others)

  unfoldable pub filter_block :
      BlockType
      → List Monitor
      → Option (List (String × ContractSpec))
      → Result FilterError (List MonitorMatch)
  unfolding filter_monitors evm_specs
  filter_block (Chain.evm evm_block) monitors contract_specs =
      let current_block_number = unwrap_or 0 evm_block.number in
      do
        all_block_logs ← client.get_logs_for_blocks current_block_number current_block_number
        filter_monitors (evm_specs (unwrap_or [] contract_specs)) all_block_logs
            (alloy.transactions evm_block) monitors
  filter_block _ monitors contract_specs = err block_type_mismatch
