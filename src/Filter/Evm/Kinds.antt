-- ===== src/Filter/Evm/Kinds.antt =====
-- src/services/filter/filters/evm/evaluator.rs: the kinds of EVM values, the kind of a JSON value, and
-- the search for a text in a JSON value.
use Prim.Native.String.{len}
use text.Mathlib.Text.{starts_with}
use openzeppelin_monitor.Prelude.{
  Bool, true, false, ◌&&◌, ◌||◌, List, [], ◌∷◌, none, some, String, str_eq, any, ◌==◌,
  if◌then◌else◌,
}
use openzeppelin_monitor.Prelude.Chars.{all_chars, skip, is_ascii_hexdigit}
use openzeppelin_monitor.Filter.Expression.Json.{
  Value, null, bool, number, string, array, object, Items, nil, cons, Fields, end, field,
}
use openzeppelin_monitor.Filter.Expression.Evaluate.{bool_to_string}
use openzeppelin_monitor.Filter.Evm.{Platform}
use openzeppelin_monitor.Filter.Evm.Helpers.{are_same_address}

abbrev pub unsigned_integer_kinds : List String
unsigned_integer_kinds =
    "uint8" ∷ "uint16" ∷ "uint32" ∷ "uint64" ∷ "uint128" ∷ "uint256" ∷ "number" ∷ []

abbrev pub signed_integer_kinds : List String
signed_integer_kinds = "int8" ∷ "int16" ∷ "int32" ∷ "int64" ∷ "int128" ∷ "int256" ∷ []

abbrev pub array_kinds : List String
array_kinds =
    "array" ∷ "uint8[]" ∷ "uint16[]" ∷ "uint32[]" ∷ "uint64[]" ∷ "uint128[]" ∷ "uint256[]"
    ∷ "int8[]" ∷ "int16[]" ∷ "int32[]" ∷ "int64[]" ∷ "int128[]" ∷ "int256[]" ∷ "string[]"
    ∷ "address[]" ∷ "bool[]" ∷ "bytes[]" ∷ "bytes32[]" ∷ "tuple[]" ∷ []

abbrev pub contains_str : List String → String → Bool
contains_str kinds kind = any (λ k. str_eq k kind) kinds

module _ (platform : Platform) where
  abbrev pub lower : String → String
  lower s = platform.unicode.to_lowercase s

  unfoldable pub get_kind_from_json_value : Value → String
  get_kind_from_json_value (string s) =
      let is_hex = starts_with (lower s) "0x" && all_chars is_ascii_hexdigit (skip 2 s) in
      if is_hex && len s == 42
      then "address"
      else if is_hex
      then (if len s == 66 then "bytes32" else "bytes")
      else "string"
  get_kind_from_json_value (number n) =
      if platform.serde.is_negative_i64 n then "int64" else "number"
  get_kind_from_json_value (bool b) = "bool"
  get_kind_from_json_value (array items) = "array"
  get_kind_from_json_value (object fields) = "map"
  get_kind_from_json_value null = "null"

  unfoldable pub string_matches : String → String → Bool
  unfolding get_kind_from_json_value are_same_address
  string_matches s rhs_str =
      if str_eq (get_kind_from_json_value (string s)) "address"
      then are_same_address platform s rhs_str
      else str_eq (lower s) (lower rhs_str)

  unfoldable pub number_matches : String → String → Bool
  number_matches n rhs_str = elim (platform.decimals_equal n rhs_str) [
    | some equal ↦ equal
    | none ↦ str_eq n rhs_str
  ]

  unfoldable mutual
    unfolding string_matches number_matches

    pub check_json_value_matches_str : Value → String → Bool
    check_json_value_matches_str (string s) rhs_str = string_matches s rhs_str
    check_json_value_matches_str (number n) rhs_str = number_matches n rhs_str
    check_json_value_matches_str (bool b) rhs_str =
        str_eq (lower (bool_to_string b)) (lower rhs_str)
    check_json_value_matches_str (object nested_map) rhs_str = any_field nested_map rhs_str
    check_json_value_matches_str (array arr) rhs_str = any_item arr rhs_str
    check_json_value_matches_str null rhs_str = str_eq rhs_str "null"

    pub any_item : Items → String → Bool
    any_item nil rhs_str = false
    any_item (cons v items) rhs_str =
        check_json_value_matches_str v rhs_str || any_item items rhs_str

    pub any_field : Fields → String → Bool
    any_field end rhs_str = false
    any_field (field k v fields) rhs_str =
        check_json_value_matches_str v rhs_str || any_field fields rhs_str

  -- `==` of `serde_json::Value`.
  unfoldable mutual
    pub json_eq : Value → Value → Bool
    json_eq null null = true
    json_eq (bool true) (bool b) = b
    json_eq (bool false) (bool true) = false
    json_eq (bool false) (bool false) = true
    json_eq (number m) (number n) = platform.serde.number_eq m n
    json_eq (string s) (string t) = str_eq s t
    json_eq (array xs) (array ys) = items_eq xs ys
    json_eq (object xs) (object ys) = fields_eq xs ys
    json_eq _ _ = false

    pub items_eq : Items → Items → Bool
    items_eq nil nil = true
    items_eq (cons v xs) (cons w ys) = json_eq v w && items_eq xs ys
    items_eq _ _ = false

    pub fields_eq : Fields → Fields → Bool
    fields_eq end end = true
    fields_eq (field k v xs) (field j w ys) = str_eq k j && json_eq v w && fields_eq xs ys
    fields_eq _ _ = false
