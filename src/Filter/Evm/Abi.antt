-- ===== src/Filter/Evm/Abi.antt =====
-- The contract interfaces and values of the crate alloy that src/services/filter/filters/evm calls
-- for, as the parameter `Alloy`, and the printing of a decoded value (helpers.rs). A decoded value
-- keeps its payload as the text that it prints: the digits of a number, the output of `hex::encode`.
use Prim.Native.String.{◌++◌}
use openzeppelin_monitor.Prelude.{ℕ, Bool, List, [], ◌∷◌, Option, String}
use openzeppelin_monitor.Models.Block.{EvmBlock}
use openzeppelin_monitor.Models.Evm.{Transaction, Log}
use openzeppelin_monitor.Filter.Expression.{Expression}
use openzeppelin_monitor.Filter.Expression.Evaluate.{bool_to_string}

mutual
  pub data DynSolValue : Type 0 where
    address fixed_bytes bytes int uint string function : String → DynSolValue
    bool : Bool → DynSolValue
    array fixed_array tuple : Values → DynSolValue

  pub data Values : Type 0 where
    nil : Values
    cons : DynSolValue → Values → Values

abbrev bracketed : String → String → String → String
bracketed opening text closing = opening ++ (text ++ closing)

unfoldable mutual
  pub dyn_value_to_string : DynSolValue → String
  dyn_value_to_string (bool b) = bool_to_string b
  dyn_value_to_string (string s) = bracketed "\"" s "\""
  dyn_value_to_string (address a) = bracketed "\"0x" a "\""
  dyn_value_to_string (uint n) = n
  dyn_value_to_string (int n) = n
  dyn_value_to_string (fixed_bytes b) = bracketed "\"0x" b "\""
  dyn_value_to_string (bytes b) = bracketed "\"0x" b "\""
  dyn_value_to_string (array arr) = bracketed "[" (join arr) "]"
  dyn_value_to_string (fixed_array arr) = bracketed "[" (join arr) "]"
  dyn_value_to_string (tuple fields) = bracketed "(" (join fields) ")"
  dyn_value_to_string (function selector) = bracketed "\"0x" selector "\""

  -- `map(dyn_value_to_string)` and `join(",")`.
  pub join : Values → String
  join nil = ""
  join (cons v rest) = dyn_value_to_string v ++ join_rest rest

  pub join_rest : Values → String
  join_rest nil = ""
  join_rest (cons v rest) = "," ++ (dyn_value_to_string v ++ join_rest rest)

unfoldable pub format_token_value : DynSolValue → String
unfolding dyn_value_to_string
format_token_value (address a) = "0x" ++ a
format_token_value (fixed_bytes b) = "0x" ++ b
format_token_value (bytes b) = "0x" ++ b
format_token_value (int n) = n
format_token_value (uint n) = n
format_token_value (bool b) = bool_to_string b
format_token_value (string s) = s
format_token_value (array arr) = bracketed "[" (join arr) "]"
format_token_value (fixed_array arr) = bracketed "[" (join arr) "]"
format_token_value (tuple values) = bracketed "(" (join values) ")"
format_token_value (function selector) = "0x" ++ selector

abbrev values_list : Values → List DynSolValue
values_list nil = []
values_list (cons v rest) = v ∷ values_list rest

-- The inputs of a call: a tuple's fields, or the one value.
abbrev pub decoded_inputs : DynSolValue → List DynSolValue
decoded_inputs (tuple vals) = values_list vals
decoded_inputs val = val ∷ []

pub record Param : Type 0 where
  pub name : String
  pub ty : String
  pub selector_type : String
  pub indexed : Bool

pub record AbiItem : Type 0 where
  pub name : String
  pub inputs : List Param
  pub selector : List ℕ

pub record JsonAbi : Type 0 where
  pub events : List AbiItem
  pub functions : List AbiItem

-- `decode_log` gives the indexed values and those of the body, and none if `LogData::new` or the
-- decoding refuses the log; `are_types` tells whether every text names a type; `parse` is the
-- parser of expressions.
pub record Alloy : Type 0 where
  pub parse_abi : String → Option JsonAbi
  pub decode_log : AbiItem → Log → Option (List DynSolValue × List DynSolValue)
  pub are_types : List String → Bool
  pub abi_decode_params : List String → List ℕ → Option DynSolValue
  pub hex_encode : List ℕ → String
  pub to_string : ℕ → String
  pub transactions : EvmBlock → List Transaction
  pub parse : String → Option Expression
