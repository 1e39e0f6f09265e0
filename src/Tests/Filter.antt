-- ===== src/Tests/Filter.antt =====
-- Runs of the filter of EVM blocks (src/services/filter/filters/evm/filter.rs).
use openzeppelin_monitor.Prelude.{
  ◌≡◌, refl, ◌+◌, ◌≤◌, ◌++◌, true, false, List, [], ◌∷◌, none, some, String, ◌==◌, length, all,
  find, if◌then◌else◌,
}
use openzeppelin_monitor.Prelude.Result.{Result, ok, err, is_ok}
use openzeppelin_monitor.Models.Block.{EvmBlock, unwrap_or}
use openzeppelin_monitor.Models.Block as Chain
use openzeppelin_monitor.Models.Monitor.{
  Monitor, TransactionCondition, TransactionStatus, success, failure, any, EventCondition,
}
use openzeppelin_monitor.Models.Monitor as Core
use openzeppelin_monitor.Models.Evm.{Transaction, TransactionReceipt, Log, MonitorMatch}
use openzeppelin_monitor.Filter.Expression.{number, gt, simple, condition}
use openzeppelin_monitor.Filter.Expression.Evaluate.{evaluate, evaluate_condition}
use openzeppelin_monitor.Filter.Evm.Evaluator.{get_base_param, compare_final_values}
use openzeppelin_monitor.Filter.Evm.Abi.{AbiItem, Alloy, uint}
use openzeppelin_monitor.Filter.Evm.Conditions.{needs_receipt, find_matching_transaction, tx_params}
use openzeppelin_monitor.Filter.Evm.Conditions.FirstMatch.{
  reported, satisfied, find_matching_transaction-find,
}
use openzeppelin_monitor.Filter.Evm.Calls.{Calls, find_matching_functions_for_transaction}
use openzeppelin_monitor.Filter.Evm.Calls.Single.{Reports, find_matching_functions-Reports}
use openzeppelin_monitor.Filter.Evm.Events.{
  FilterError, EventMatches, find_matching_events_for_transaction,
}
use openzeppelin_monitor.Filter.Evm.Events.Panic.{readable, is_ok-find_matching_events}
use openzeppelin_monitor.Filter.Evm.Events.Sound.{Aligned, find_matching_events-Aligned}
use openzeppelin_monitor.Filter.Evm.Block.{filter_block}
use openzeppelin_monitor.Filter.Evm.Matching.{EvmClient}
use openzeppelin_monitor.Filter.Evm.Block.Sound.{AllSound, filter_block-IsMatch}
use openzeppelin_monitor.Filter.Evm.Block.Failed.{filter_block-failed}
use openzeppelin_monitor.Tests.Expressions.{platform}

abbrev transfer : AbiItem
transfer = record {
  name = "transfer";
  inputs =
      record { name = "value"; ty = "uint256"; selector_type = "uint256"; indexed = false } ∷ [];
  selector = 1 ∷ 2 ∷ 3 ∷ 4 ∷ [];
}

abbrev transaction : Transaction
transaction = record {
  hash = "cd";
  nonce = 0;
  transaction_index = none;
  sender = none;
  to = some "ab";
  value = 100;
  gas_price = none;
  gas = 0;
  input = 1 ∷ 2 ∷ 3 ∷ 4 ∷ 5 ∷ [];
  max_fee_per_gas = none;
  max_priority_fee_per_gas = none;
  content = "";
}

-- Every expression is `value > 7`; every interface has one event and one function.
abbrev pub alloy : Alloy
alloy = record {
  parse_abi = λ text. some (record { events = transfer ∷ []; functions = transfer ∷ [] });
  decode_log = λ event log. some ([], uint "100" ∷ []);
  are_types = λ types. true;
  abi_decode_params = λ types input. some (uint "100");
  hex_encode = λ bytes. "01020304";
  to_string = λ n. if n == 100 then "100" else "7";
  transactions = λ block. record transaction { hash = block.content } ∷ [];
  parse = λ text.
      some (condition (record { left = simple "value"; operator = gt; right = number "7" }));
}

abbrev log : Log
log = record {
  address = "ab";
  topics = "01020304" ∷ [];
  payload = [];
  transaction_hash = some "cd";
  content = "";
}

abbrev bare_log : Log
bare_log = record log { topics = [] }

abbrev receipt : TransactionReceipt
receipt = record { status = some 0; gas_used = none; content = "" }

abbrev pub client : EvmClient
client = record {
  get_logs_for_blocks = λ first last. ok (log ∷ []);
  get_transaction_receipt = λ hash. ok receipt;
}

abbrev pub evm_block : EvmBlock
evm_block = record { number = some 5; content = "cd" }

-- Of transactions with a value above seven, and of transfers.
abbrev pub monitor : Monitor
monitor = record {
  name = "transfers";
  networks = "mainnet" ∷ [];
  paused = false;
  addresses = record { address = "0xab"; contract_spec = some (Core.evm "{}") } ∷ [];
  match_conditions = record {
    functions = record { signature = "transfer(uint256)"; expression = none } ∷ [];
    events = record { signature = "transfer(uint256)"; expression = some "value > 7" } ∷ [];
    transactions = record { status = success; expression = some "value > 7" } ∷ [];
  };
  trigger_conditions = [];
  triggers = [];
}

abbrev pub failed_only : Monitor
failed_only = record monitor {
  match_conditions = record {
    functions = [];
    events = [];
    transactions = record { status = failure; expression = none } ∷ [];
  };
}

abbrev specs : List (String × String)
specs = ("0xab", "{}") ∷ []

abbrev results : Result FilterError (List MonitorMatch) → List MonitorMatch
results (ok r) = r
results (err e) = []

abbrev found : List MonitorMatch
unfolding filter_block needs_receipt find_matching_events_for_transaction
found =
    results (filter_block platform alloy client "mainnet" (Chain.evm evm_block) (monitor ∷ []) none)

found_one : length found ≡ 1
unfolding filter_block needs_receipt find_matching_events_for_transaction evaluate
    evaluate_condition get_base_param compare_final_values find_matching_transaction
found_one = refl

filter_block-IsMatch_example :
    AllSound platform alloy client "mainnet" evm_block [] (monitor ∷ []) found
unfolding filter_block needs_receipt find_matching_events_for_transaction
filter_block-IsMatch_example =
    filter_block-IsMatch platform alloy client "mainnet" evm_block (monitor ∷ []) none found refl

-- The receipt says that the transaction failed.
abbrev unreported : List MonitorMatch
unfolding filter_block needs_receipt find_matching_events_for_transaction find_matching_transaction
unreported =
    results
      (filter_block platform alloy client "mainnet" (Chain.evm evm_block) (failed_only ∷ []) none)

filter_block-failed_example : unreported ≡ []
unfolding filter_block needs_receipt find_matching_events_for_transaction find_matching_transaction
filter_block-failed_example =
    filter_block-failed platform alloy client "mainnet" evm_block none failed_only (log ∷ []) refl
      refl refl ((refl, refl), tt) refl

find_matching_transaction-find_example :
    find_matching_transaction platform alloy success transaction none monitor []
    ≡ []
      ++ reported platform alloy success (
          find
            (satisfied platform alloy success (tx_params platform alloy transaction none))
            monitor.match_conditions.transactions)
find_matching_transaction-find_example =
    find_matching_transaction-find platform alloy success transaction none monitor [] refl

abbrev no_calls : Calls
no_calls = record { matched_functions = []; functions = some [] }

find_matching_functions-Reports_example :
    Reports platform alloy specs transaction monitor monitor.match_conditions.functions no_calls
      (find_matching_functions_for_transaction platform alloy specs transaction monitor no_calls)
find_matching_functions-Reports_example =
    find_matching_functions-Reports platform alloy specs transaction monitor no_calls

abbrev no_events : EventMatches
no_events = record { matched_events = []; events = some []; involved_addresses = [] }

is_ok-find_matching_events_example :
    is_ok
      (find_matching_events_for_transaction platform alloy (log ∷ bare_log ∷ []) monitor no_events)
    ≡ all (readable platform alloy monitor) (log ∷ bare_log ∷ [])
is_ok-find_matching_events_example =
    is_ok-find_matching_events platform alloy (log ∷ bare_log ∷ []) monitor no_events

panics :
    is_ok
      (find_matching_events_for_transaction platform alloy (log ∷ bare_log ∷ []) monitor no_events)
    ≡ false
unfolding find_matching_events_for_transaction
panics = refl

abbrev events_of : Result FilterError EventMatches → EventMatches
events_of (ok m) = m
events_of (err e) = no_events

abbrev one_event : EventMatches
unfolding find_matching_events_for_transaction
one_event =
    events_of (find_matching_events_for_transaction platform alloy (log ∷ []) monitor no_events)

find_matching_events-Aligned_example :
    Aligned one_event × (length one_event.matched_events ≤ length no_events.matched_events + 1)
unfolding find_matching_events_for_transaction
find_matching_events-Aligned_example =
    find_matching_events-Aligned platform alloy (log ∷ []) monitor no_events one_event refl
      ([], refl, refl)
