-- ===== src/Filter/Expression/Json.antt =====
-- src/services/filter/expression/helpers.rs: the walk along the accessors of a path. A JSON value
-- (`serde_json::Value`) is a tree whose numbers are kept as the texts that `to_string` prints; the
-- functions of serde_json are the fields of `Serde`.
use openzeppelin_monitor.Prelude.{
  ℕ, zero, suc, Bool, List, [], ◌∷◌, Option, none, some, String, str_eq, if◌then◌else◌,
}
use openzeppelin_monitor.Prelude.Result.{Result, ok, ◌>>=◌, ok_or}
use openzeppelin_monitor.Filter.Expression.{
  Accessor, index, key, EvaluationError, type_mismatch, parse_error, index_out_of_bounds,
  field_not_found,
}

mutual
  pub data Value : Type 0 where
    null : Value
    bool : Bool → Value
    number : String → Value
    string : String → Value
    array : Items → Value
    object : Fields → Value

  pub data Items : Type 0 where
    nil : Items
    cons : Value → Items → Items

  pub data Fields : Type 0 where
    end : Fields
    field : String → Value → Fields → Fields

-- `from_str` is none on a text that is no JSON; `number_eq` compares two numbers; `is_negative_i64`
-- tells whether `Number::as_i64` gives a number below zero.
pub record Serde : Type 0 where
  pub from_str : String → Option Value
  pub to_string : Value → String
  pub number_eq : String → String → Bool
  pub is_negative_i64 : String → Bool

abbrev pub as_array : Value → Option Items
as_array (array items) = some items
as_array _ = none

abbrev pub as_object : Value → Option Fields
as_object (object fields) = some fields
as_object _ = none

-- `Vec::get` and `Map::get`.
abbrev pub get_index : ℕ → Items → Option Value
get_index i nil = none
get_index zero (cons v items) = some v
get_index (suc i) (cons v items) = get_index i items

abbrev pub get_key : String → Fields → Option Value
get_key k end = none
get_key k (field j v fields) = let rest = get_key k fields in if str_eq j k then some v else rest

unfoldable pub access_json_value : Value → Accessor → Result EvaluationError Value
access_json_value current_json (index idx) = do
  arr ← ok_or type_mismatch (as_array current_json)
  ok_or index_out_of_bounds (get_index idx arr)
access_json_value current_json (key k) = do
  obj ← ok_or type_mismatch (as_object current_json)
  ok_or field_not_found (get_key k obj)

unfoldable pub parse_base_value : Serde → String → Result EvaluationError Value
parse_base_value serde base_value_str = ok_or parse_error (serde.from_str base_value_str)

-- The loop over the accessors.
unfoldable pub walk : Value → List Accessor → Result EvaluationError Value
walk current_json_val [] = ok current_json_val
walk current_json_val (accessor ∷ rest) = do
  next ← access_json_value current_json_val accessor
  walk next rest

unfoldable pub resolve_path_to_json_value :
    Serde → String → List Accessor → Result EvaluationError Value
unfolding parse_base_value walk access_json_value
resolve_path_to_json_value serde base_value_str accessors = do
  current_json_val ← parse_base_value serde base_value_str
  walk current_json_val accessors
