-- ===== src/Filter/Evm/Matching.antt =====
-- The steps of `filter_block` of src/services/filter/filters/evm/filter.rs that look at one list or one
-- receipt: the interfaces of the contracts, the logs of each transaction, the status of a receipt,
-- the list of addresses, and whether the conditions that were found make a match.
use Prim.Native.String.{compare}
use Prim.Native.Nat.{Ordering}
use openzeppelin_monitor.Prelude.{
  ℕ, Bool, true, false, ◌&&◌, ◌||◌, List, [], ◌∷◌, ◌++◌, Option, none, some, String, str_eq,
  is_empty, map, ◌==◌, if◌then◌else◌,
}
use openzeppelin_monitor.Prelude.Dict.{lookup, insert}
use openzeppelin_monitor.Prelude.Result.{Result}
use openzeppelin_monitor.Models.Block.{unwrap_or}
use openzeppelin_monitor.Models.Monitor.{
  ContractSpec, AddressWithSpec, MatchConditions, TransactionCondition, TransactionStatus, success,
  failure, Monitor,
}
use openzeppelin_monitor.Models.Monitor as Core
use openzeppelin_monitor.Models.Evm.{TransactionReceipt, Log}
use openzeppelin_monitor.Filter.Evm.Conditions.{h160_to_string, b256_to_string}
use openzeppelin_monitor.Filter.Evm.Events.{FilterError}

pub record EvmClient : Type 0 where
  pub get_logs_for_blocks : ℕ → ℕ → Result FilterError (List Log)
  pub get_transaction_receipt : String → Result FilterError TransactionReceipt

-- The contract specs of EVM contracts.
unfoldable pub evm_specs : List (String × ContractSpec) → List (String × String)
evm_specs [] = []
evm_specs ((address, Core.evm spec) ∷ rest) = (address, spec) ∷ evm_specs rest
evm_specs (other ∷ rest) = evm_specs rest

-- A hash that is missing is the zero hash.
abbrev zero_hash : String
zero_hash = "0000000000000000000000000000000000000000000000000000000000000000"

abbrev pub log_key : Log → String
log_key log = b256_to_string (unwrap_or zero_hash log.transaction_hash)

-- `logs_by_tx.entry(tx_hash).or_default().push(log)` for every log in turn.
unfoldable pub group_logs : List Log → List (String × List Log) → List (String × List Log)
unfolding insert
group_logs [] logs_by_tx = logs_by_tx
group_logs (log ∷ logs) logs_by_tx =
    group_logs logs
      (insert (log_key log) (unwrap_or [] (lookup (log_key log) logs_by_tx) ++ log ∷ []) logs_by_tx)

unfoldable pub receipt_status : Option TransactionReceipt → TransactionStatus
receipt_status none = success
receipt_status (some receipt) = elim receipt.status [
  | none ↦ failure
  | some s ↦ if s == 1 then success else failure
]

abbrev pub address_list : Option String → List String
address_list none = []
address_list (some a) = h160_to_string a ∷ []

-- `sort_unstable` and `dedup`.
abbrev pub insert_sorted : String → List String → List String
insert_sorted s [] = s ∷ []
insert_sorted s (t ∷ rest) =
    let later = insert_sorted s rest in
    elim (compare s t) [ Ordering.gt ↦ t ∷ later | _ ↦ s ∷ t ∷ rest ]

unfoldable pub sort : List String → List String
sort [] = []
sort (s ∷ rest) = insert_sorted s (sort rest)

unfoldable pub dedup : List String → List String
dedup [] = []
dedup (s ∷ []) = s ∷ []
dedup (s ∷ t ∷ rest) = let later = dedup (t ∷ rest) in if str_eq s t then later else s ∷ later

unfoldable pub should_match : MatchConditions → Bool → Bool → Bool → Bool
should_match conditions has_event_match has_function_match has_transaction_match =
    let no_events = is_empty conditions.events in
    let no_functions = is_empty conditions.functions in
    let no_transactions = is_empty conditions.transactions in
    if no_events && no_functions && no_transactions
    then true
    else if no_events && no_functions
    then has_transaction_match
    else if no_transactions
    then has_event_match || has_function_match
    else (has_event_match || has_function_match) && has_transaction_match

-- `into_iter().filter(|_| flag)` and `if flag { Some(..) } else { None }`.
abbrev pub kept_if {ℓ} : {A : Type ℓ} → Bool → List A → List A
kept_if true xs = xs
kept_if false xs = []

abbrev pub args_if {ℓ} : {A : Type ℓ} → Bool → Option A → Option A
args_if true a = a
args_if false a = none

abbrev pub without_spec : AddressWithSpec → AddressWithSpec
without_spec addr = record addr { contract_spec = none }

-- The monitor without the interfaces of its contracts.
abbrev pub without_specs : Monitor → Monitor
without_specs monitor = record monitor { addresses = map without_spec monitor.addresses }
