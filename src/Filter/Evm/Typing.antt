-- ===== src/Filter/Evm/Typing.antt =====
-- A static discipline for the expressions that src/services/filter/filters/evm/evaluator.rs
-- evaluates: which operators and literals fit the kind of a variable.
pub mod Sound
use openzeppelin_monitor.Prelude.{
  ℕ, ◌≡◌, Bool, true, false, ◌&&◌, List, [], ◌∷◌, Option, none, some, String, find, All, str_eq,
  if◌then◌else◌,
}
use openzeppelin_monitor.Prelude.Int.{ℤ}
use openzeppelin_monitor.Prelude.Dict.{lookup}
use openzeppelin_monitor.Prelude.Result.{Result, ok, err}
use openzeppelin_monitor.Filter.Expression.{
  LiteralValue, bool, str, number, ComparisonOperator, eq, ne, gt, gte, lt, lte, contains,
  LogicalOperator, ConditionLeft, simple, Expression,
}
use openzeppelin_monitor.Filter.Expression as Ast
use openzeppelin_monitor.Filter.Expression.Json.{array, Items}
use openzeppelin_monitor.Models.Evm.{MatchParamEntry}
use openzeppelin_monitor.Filter.Evm.{Platform}
use openzeppelin_monitor.Filter.Evm.Helpers.{string_to_u256, string_to_i256}
use openzeppelin_monitor.Filter.Evm.Kinds.{
  unsigned_integer_kinds, signed_integer_kinds, array_kinds, contains_str, lower,
}
use openzeppelin_monitor.Filter.Evm.Tuple.{parse_tuple_elements}
use openzeppelin_monitor.Filter.Evm.Evaluator.{parse_bool, number_or_str, rhs_target}
use text.Mathlib.Text.{starts_with}
use openzeppelin_monitor.Prelude.Chars.{ends_with, between}

-- The classes of kinds that are compared alike.
pub data Class : Type 0 where
  signed unsigned array_like address textual boolean tuple : Class

abbrev pub class_of : String → Option Class
class_of kind =
    if contains_str signed_integer_kinds kind
    then some signed
    else if contains_str unsigned_integer_kinds kind
    then some unsigned
    else if contains_str array_kinds kind
    then some array_like
    else if str_eq kind "address"
    then some address
    else if contains_str ("string" ∷ "bytes" ∷ "bytes32" ∷ []) kind
    then some textual
    else if str_eq kind "bool"
    then some boolean
    else if str_eq kind "tuple"
    then some tuple
    else none

abbrev pub is_ordering : ComparisonOperator → Bool
is_ordering Ast.starts_with = false
is_ordering Ast.ends_with = false
is_ordering contains = false
is_ordering _ = true

abbrev pub is_equality : ComparisonOperator → Bool
is_equality eq = true
is_equality ne = true
is_equality _ = false

abbrev pub is_textual : ComparisonOperator → Bool
is_textual gt = false
is_textual gte = false
is_textual lt = false
is_textual lte = false
is_textual _ = true

module _ (platform : Platform) where
  abbrev pub IsArray : String → Type 0
  IsArray s = (items : Items) × (platform.serde.from_str s ≡ some (array items))

  -- The text is a value of the class.
  abbrev pub HasClass : Class → String → Type 0
  HasClass signed v = (n : ℤ) × (string_to_i256 platform v ≡ some n)
  HasClass unsigned v = (n : ℕ) × (string_to_u256 platform v ≡ some n)
  HasClass array_like v = IsArray v × IsArray (lower platform v)
  HasClass address v = Unit
  HasClass textual v = Unit
  HasClass boolean v = (b : Bool) × (parse_bool v ≡ some b)
  HasClass tuple v =
      (starts_with v "(" && ends_with v ")" ≡ true)
      × ((items : Items) × (parse_tuple_elements platform (between v) ≡ ok items))

  -- The operator and the literal fit a variable of the class.
  pub data Permits : Class → ComparisonOperator → LiteralValue → Type 0 where
    signed_op :
        {op : ComparisonOperator} {lit : LiteralValue} {s : String}
        → is_ordering op ≡ true
        → number_or_str lit ≡ ok s
        → HasClass signed s
        → Permits signed op lit
    unsigned_op :
        {op : ComparisonOperator} {lit : LiteralValue} {s : String}
        → is_ordering op ≡ true
        → number_or_str lit ≡ ok s
        → HasClass unsigned s
        → Permits unsigned op lit
    array_eq :
        {op : ComparisonOperator} {s : String}
        → is_equality op ≡ true
        → IsArray (lower platform s)
        → Permits array_like op (str s)
    array_contains :
        {lit : LiteralValue} {s : String}
        → rhs_target contains lit ≡ ok s
        → Permits array_like contains lit
    address_op :
        {op : ComparisonOperator} {s : String} → is_equality op ≡ true → Permits address op (str s)
    text_op :
        {op : ComparisonOperator} {s : String} → is_textual op ≡ true → Permits textual op (str s)
    boolean_op :
        {op : ComparisonOperator} {b : Bool} → is_equality op ≡ true → Permits boolean op (bool b)
    tuple_eq :
        {op : ComparisonOperator} {s : String} → is_equality op ≡ true → Permits tuple op (str s)
    tuple_contains :
        {lit : LiteralValue} {s : String}
        → rhs_target contains lit ≡ ok s
        → Permits tuple contains lit

  abbrev pub Context : Type 0
  Context = List (String × Class)

  -- Every variable is declared and fits its operators and literals.
  pub data IsTyped (Γ : Context) : Expression → Type 0 where
    condition :
        {name : String} {c : Class} {op : ComparisonOperator} {lit : LiteralValue}
        → lookup name Γ ≡ some c
        → Permits c op lit
        → IsTyped Γ (Ast.condition (record { left = simple name; operator = op; right = lit }))
    logical :
        {l r : Expression} {op : LogicalOperator}
        → IsTyped Γ l
        → IsTyped Γ r
        → IsTyped Γ (Ast.logical l op r)

  -- The variable stands among the arguments with a value of the class.
  abbrev pub HasValue : List MatchParamEntry → String × Class → Type 0
  HasValue args (name, c) =
      (p : MatchParamEntry) × (find (λ q. str_eq q.name name) args ≡ some p)
      × (class_of (lower platform p.kind) ≡ some c)
      × HasClass c p.value

  abbrev pub Conforms : List MatchParamEntry → Context → Type 0
  Conforms args Γ = All (HasValue args) Γ
