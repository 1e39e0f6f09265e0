-- ===== src/Filter/Evm/Conditions.antt =====
-- src/services/filter/filters/evm/filter.rs: the evaluation of an expression's text and the conditions
-- on a transaction. A vector that the source pushes to is
-- an argument that is given back longer.
pub mod FirstMatch
use Prim.Native.String.{◌++◌ as append}
use text.Mathlib.Text.{find?}
use openzeppelin_monitor.Prelude.{
  ℕ, zero, suc, Bool, true, false, not, ◌&&◌, ◌||◌, List, [], ◌∷◌, ◌++◌, Option, none, some, String,
  str_eq, is_empty, any, find, leb, length, take, map, if◌then◌else◌,
}
use openzeppelin_monitor.Prelude.Chars.{is_empty_str}
use openzeppelin_monitor.Prelude.Result.{Result, ok, err, ◌>>=◌, ◌>>◌, ensure, ok_or}
use openzeppelin_monitor.Models.Block.{unwrap_or}
use openzeppelin_monitor.Models.Monitor.{
  AddressWithSpec, FunctionCondition, TransactionStatus, status_eq, TransactionCondition, Monitor,
}
use openzeppelin_monitor.Models.Monitor
use openzeppelin_monitor.Models.Evm.{
  Transaction, TransactionReceipt, Log, MatchParamEntry, MatchParamsMap,
}
use openzeppelin_monitor.Filter.Expression.{EvaluationError, parse_error}
use openzeppelin_monitor.Filter.Expression.Evaluate.{evaluate}
use openzeppelin_monitor.Filter.Evm.{Platform}
use openzeppelin_monitor.Filter.Evm.Abi.{
  DynSolValue, format_token_value, decoded_inputs, Param, AbiItem, JsonAbi, Alloy,
}
use openzeppelin_monitor.Filter.Evm.Helpers.{are_same_address, are_same_signature}
use openzeppelin_monitor.Filter.Evm.Evaluator.{evaluator, is_some, contains_substr}

-- `h160_to_string` and `b256_to_string`.
abbrev pub h160_to_string : String → String
h160_to_string address = append "0x" address

abbrev pub b256_to_string : String → String
b256_to_string hash = append "0x" hash

-- `Ok(true)`; `Ok(false)` and an error, which is logged, are alike.
abbrev pub holds : Result EvaluationError Bool → Bool
holds (ok b) = b
holds (err e) = false

abbrev pub param : String → String → String → MatchParamEntry
param name value kind = record { name = name; value = value; indexed = false; kind = kind }

abbrev pub address_or_empty : Option String → String
address_or_empty none = ""
address_or_empty (some a) = h160_to_string a

module _ (platform : Platform) (alloy : Alloy) where
  unfoldable pub evaluate_expression : String → List MatchParamEntry → Result EvaluationError Bool
  evaluate_expression expression args =
      if is_empty_str (platform.unicode.trim expression) then err parse_error else do
        parsed_ast ← ok_or parse_error (alloy.parse expression)
        evaluate platform.serde (evaluator platform args) parsed_ast

  abbrev gas_used_text : Option TransactionReceipt → String
  gas_used_text none = ""
  gas_used_text (some r) = alloy.to_string (unwrap_or 0 r.gas_used)

  unfoldable pub tx_params : Transaction → Option TransactionReceipt → List MatchParamEntry
  tx_params transaction tx_receipt =
      let number = λ (n : ℕ). alloy.to_string n in
      param "value" (number transaction.value) "uint256"
      ∷ param "from" (address_or_empty transaction.sender) "address"
      ∷ param "to" (address_or_empty transaction.to) "address"
      ∷ param "hash" (b256_to_string transaction.hash) "string"
      ∷ param "gas_price" (number (unwrap_or 0 transaction.gas_price)) "uint256"
      ∷ param "max_fee_per_gas" (number (unwrap_or 0 transaction.max_fee_per_gas)) "uint256"
      ∷ param "max_priority_fee_per_gas" (number (unwrap_or 0 transaction.max_priority_fee_per_gas))
          "uint256"
      ∷ param "gas_limit" (number transaction.gas) "uint256"
      ∷ param "nonce" (number transaction.nonce) "uint256"
      ∷ param "input" (append "0x" (alloy.hex_encode transaction.input)) "string"
      ∷ param "gas_used" (gas_used_text tx_receipt) "uint256"
      ∷ param "transaction_index" (number (unwrap_or 0 transaction.transaction_index)) "uint64"
      ∷ []

  abbrev pub status_matches : TransactionCondition → TransactionStatus → Bool
  status_matches condition tx_status =
      status_eq condition.status Monitor.any || status_eq condition.status tx_status

  abbrev pub matched : Option String → TransactionStatus → TransactionCondition
  matched expression tx_status = record { status = tx_status; expression = expression }

  -- What a condition with a fitting status does with its expression; `next` goes on with the others.
  abbrev pub try_expression :
      Option String
      → TransactionStatus
      → List MatchParamEntry
      → List TransactionCondition
      → List TransactionCondition
      → List TransactionCondition
  try_expression none tx_status args matches next = matches ++ matched none tx_status ∷ []
  try_expression (some expr) tx_status args matches next =
      if holds (evaluate_expression expr args)
      then matches ++ matched (some expr) tx_status ∷ []
      else next

  -- The loop over the conditions.
  unfoldable pub check_conditions :
      TransactionStatus
      → List MatchParamEntry
      → List TransactionCondition
      → List TransactionCondition
      → List TransactionCondition
  unfolding evaluate_expression
  check_conditions tx_status args [] matches = matches
  check_conditions tx_status args (condition ∷ rest) matches =
      let next = check_conditions tx_status args rest matches in
      if status_matches condition tx_status
      then try_expression condition.expression tx_status args matches next
      else next

  unfoldable pub find_matching_transaction :
      TransactionStatus
      → Transaction
      → Option TransactionReceipt
      → Monitor.Monitor
      → List TransactionCondition
      → List TransactionCondition
  unfolding check_conditions tx_params
  find_matching_transaction tx_status transaction tx_receipt monitor matches =
      let conditions = monitor.match_conditions.transactions in
      if is_empty conditions
      then matches ++ matched none Monitor.any ∷ []
      else check_conditions tx_status (tx_params transaction tx_receipt) conditions matches

  abbrev pub gas_used_in_expr : Option String → Bool
  gas_used_in_expr none = false
  gas_used_in_expr (some expr) = contains_substr expr "gas_used"

  abbrev pub condition_needs_receipt : List Log → TransactionCondition → Bool
  condition_needs_receipt logs condition =
      not (status_eq condition.status Monitor.any) && is_empty logs
      || gas_used_in_expr condition.expression

  unfoldable pub needs_receipt : Monitor.Monitor → List Log → Bool
  needs_receipt monitor logs =
      any (condition_needs_receipt logs) monitor.match_conditions.transactions
