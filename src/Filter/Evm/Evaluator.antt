-- ===== src/Filter/Evm/Evaluator.antt =====
-- src/services/filter/filters/evm/evaluator.rs: the comparison of an EVM value with a literal, by the
-- value's kind.
pub mod Negation
use mathlib.Core.List.{[], ◌∷◌}
use text.Mathlib.Text.{starts_with, find?}
use openzeppelin_monitor.Prelude.{
  Bool, true, false, not, ◌&&◌, List, Option, none, some, String, str_eq, find, if◌then◌else◌,
}
use openzeppelin_monitor.Prelude.Chars.{ends_with, between}
use openzeppelin_monitor.Prelude.Result.{Result, ok, err, ◌>>=◌, ◌>>◌, ensure, ok_or}
use openzeppelin_monitor.Models.Block.{unwrap_or}
use openzeppelin_monitor.Models.Evm.{MatchParamEntry}
use openzeppelin_monitor.Filter.Expression.{
  LiteralValue, bool, str, number, ComparisonOperator, eq, ne, contains, EvaluationError,
  variable_not_found, type_mismatch, unsupported_operator, parse_error,
}
use openzeppelin_monitor.Filter.Expression as Ast
use openzeppelin_monitor.Filter.Expression.Json.{Value, Items, as_array}
use openzeppelin_monitor.Filter.Expression.Evaluate.{
  ConditionEvaluator, compare_ordered_values, ℕ-ord, ℤ-ord,
}
use openzeppelin_monitor.Filter.Evm.{Platform}
use openzeppelin_monitor.Filter.Evm.Helpers.{are_same_address, string_to_u256, string_to_i256}
use openzeppelin_monitor.Filter.Evm.Kinds.{
  unsigned_integer_kinds, signed_integer_kinds, array_kinds, contains_str, lower,
  get_kind_from_json_value, any_item, json_eq,
}
use openzeppelin_monitor.Filter.Evm.Tuple.{normalize_tuple_whitespace, parse_tuple_elements}

abbrev pub is_some {ℓ} : {A : Type ℓ} → Option A → Bool
is_some none = false
is_some (some a) = true

-- `str::contains` and `str::parse::<bool>`.
abbrev pub contains_substr : String → String → Bool
contains_substr s t = is_some (find? s t)

abbrev pub parse_bool : String → Option Bool
parse_bool s = if str_eq s "true" then some true else if str_eq s "false" then some false else none

abbrev pub bool_eq : Bool → Bool → Bool
bool_eq true b = b
bool_eq false b = not b

-- The text that an array or a tuple is compared with: a number only where `contains` looks for it.
unfoldable pub rhs_target : ComparisonOperator → LiteralValue → Result EvaluationError String
rhs_target operator (str s) = ok s
rhs_target contains (number s) = ok s
rhs_target operator _ = err type_mismatch

abbrev pub number_or_str : LiteralValue → Result EvaluationError String
number_or_str (number s) = ok s
number_or_str (str s) = ok s
number_or_str (bool b) = err type_mismatch

abbrev pub only_str : LiteralValue → Result EvaluationError String
only_str (str s) = ok s
only_str _ = err type_mismatch

abbrev pub only_bool : LiteralValue → Result EvaluationError Bool
only_bool (bool b) = ok b
only_bool _ = err type_mismatch

-- `Eq` gives the test and `Ne` its negation; every other operator is unsupported.
abbrev pub equality : ComparisonOperator → Bool → Result EvaluationError Bool
equality eq are_equal = ok are_equal
equality ne are_equal = ok (not are_equal)
equality _ are_equal = err unsupported_operator

abbrev pub Compare : Type 0
Compare = String → ComparisonOperator → LiteralValue → Result EvaluationError Bool

module _ (platform : Platform) where
  -- `Eq` and `Ne` of two texts that must both parse to JSON arrays.
  unfoldable pub arrays_equal : String → String → Result EvaluationError Bool
  unfolding json_eq
  arrays_equal lhs_json_array_str rhs_target_str = do
    lhs_json_value ← ok_or parse_error (platform.serde.from_str (lower platform lhs_json_array_str))
    rhs_json_value ← ok_or parse_error (platform.serde.from_str (lower platform rhs_target_str))
    ensure (is_some (as_array lhs_json_value) && is_some (as_array rhs_json_value)) type_mismatch
    ok (json_eq platform lhs_json_value rhs_json_value)

  unfoldable pub array_contains : String → String → Result EvaluationError Bool
  unfolding any_item
  array_contains lhs_json_array_str rhs_target_str = do
    value ← ok_or parse_error (platform.serde.from_str lhs_json_array_str)
    json_array ← ok_or parse_error (as_array value)
    ok (any_item platform json_array rhs_target_str)

  abbrev compare_arrays : String → ComparisonOperator → String → Result EvaluationError Bool
  compare_arrays lhs eq rhs = do are_equal ← arrays_equal lhs rhs; equality eq are_equal
  compare_arrays lhs ne rhs = do are_equal ← arrays_equal lhs rhs; equality ne are_equal
  compare_arrays lhs contains rhs = array_contains lhs rhs
  compare_arrays lhs _ rhs = err unsupported_operator

  unfoldable pub compare_array : Compare
  unfolding arrays_equal array_contains rhs_target
  compare_array lhs_json_array_str operator rhs_literal = do
    rhs_target_str ← rhs_target operator rhs_literal
    compare_arrays lhs_json_array_str operator rhs_target_str

  abbrev tuples_equal : String → String → Bool
  tuples_equal lhs rhs =
      str_eq (normalize_tuple_whitespace platform lhs) (normalize_tuple_whitespace platform rhs)

  -- `err none`, which the parser never gives, has no place in the source.
  abbrev pub parsed_items : Result (Option EvaluationError) Items → Result EvaluationError Items
  parsed_items (ok items) = ok items
  parsed_items (err e) = err (unwrap_or parse_error e)

  unfoldable pub tuple_contains : String → String → Result EvaluationError Bool
  unfolding any_item parse_tuple_elements
  tuple_contains lhs_json_tuple_str rhs_target_str = do
    ensure (starts_with lhs_json_tuple_str "(" && ends_with lhs_json_tuple_str ")") parse_error
    elements ← parsed_items (parse_tuple_elements platform (between lhs_json_tuple_str))
    ok (any_item platform elements rhs_target_str)

  abbrev compare_tuples : String → ComparisonOperator → String → Result EvaluationError Bool
  compare_tuples lhs contains rhs = tuple_contains lhs rhs
  compare_tuples lhs operator rhs = equality operator (tuples_equal lhs rhs)

  unfoldable pub compare_tuple : Compare
  unfolding normalize_tuple_whitespace tuple_contains rhs_target
  compare_tuple lhs_json_tuple_str operator rhs_literal = do
    rhs_target_str ← rhs_target operator rhs_literal
    compare_tuples lhs_json_tuple_str operator rhs_target_str

  unfoldable pub compare_u256 : Compare
  unfolding string_to_u256 compare_ordered_values
  compare_u256 left_str operator right_literal = do
    left ← ok_or parse_error (string_to_u256 platform left_str)
    right_str ← number_or_str right_literal
    right ← ok_or parse_error (string_to_u256 platform right_str)
    compare_ordered_values left operator right

  unfoldable pub compare_i256 : Compare
  unfolding string_to_i256 compare_ordered_values
  compare_i256 left_str operator right_literal = do
    left ← ok_or parse_error (string_to_i256 platform left_str)
    right_str ← number_or_str right_literal
    right ← ok_or parse_error (string_to_i256 platform right_str)
    compare_ordered_values left operator right

  unfoldable pub compare_address : Compare
  unfolding are_same_address
  compare_address left operator right_literal = do
    right ← only_str right_literal
    equality operator (are_same_address platform left right)

  abbrev pub string_test : String → ComparisonOperator → String → Result EvaluationError Bool
  string_test left Ast.starts_with right = ok (starts_with left right)
  string_test left Ast.ends_with right = ok (ends_with left right)
  string_test left contains right = ok (contains_substr left right)
  string_test left operator right = equality operator (str_eq left right)

  unfoldable pub compare_string : Compare
  compare_string lhs_str operator rhs_literal = do
    right ← only_str rhs_literal
    string_test (lower platform lhs_str) operator (lower platform right)

  unfoldable pub compare_boolean : Compare
  compare_boolean lhs_value_str operator rhs_literal = do
    lhs ← ok_or parse_error (parse_bool lhs_value_str)
    rhs ← only_bool rhs_literal
    equality operator (bool_eq lhs rhs)

  abbrev unsupported_kind : Compare
  unsupported_kind lhs operator rhs_literal = err type_mismatch

  -- The comparison for a kind in lower case.
  unfoldable pub comparison : String → Compare
  unfolding compare_array compare_tuple compare_u256 compare_i256 compare_address compare_string
      compare_boolean
  comparison lhs_kind =
      if contains_str signed_integer_kinds lhs_kind
      then compare_i256
      else if contains_str unsigned_integer_kinds lhs_kind
      then compare_u256
      else if contains_str array_kinds lhs_kind
      then compare_array
      else if str_eq lhs_kind "address"
      then compare_address
      else if contains_str ("string" ∷ "bytes" ∷ "bytes32" ∷ []) lhs_kind
      then compare_string
      else if str_eq lhs_kind "bool"
      then compare_boolean
      else if str_eq lhs_kind "tuple"
      then compare_tuple
      else unsupported_kind

  unfoldable pub compare_final_values :
      String → String → ComparisonOperator → LiteralValue → Result EvaluationError Bool
  unfolding comparison
  compare_final_values lhs_kind_str = comparison (lower platform lhs_kind_str)

  abbrev pub value_and_kind : Option MatchParamEntry → Result EvaluationError (String × String)
  value_and_kind none = err variable_not_found
  value_and_kind (some p) = ok (p.value, p.kind)

  unfoldable pub get_base_param :
      List MatchParamEntry → String → Result EvaluationError (String × String)
  get_base_param args name = value_and_kind (find (λ p. str_eq p.name name) args)

  -- `EVMConditionEvaluator`.
  abbrev pub evaluator : List MatchParamEntry → ConditionEvaluator
  evaluator args = record {
    get_base_param = get_base_param args;
    compare_final_values = compare_final_values;
    get_kind_from_json_value = get_kind_from_json_value platform;
  }
