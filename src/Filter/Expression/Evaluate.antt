-- ===== src/Filter/Expression/Evaluate.antt =====
-- src/services/filter/expression/evaluation.rs and helpers.rs: the interface of a chain's evaluator,
-- the comparison of ordered values, and the evaluation of an expression.
use Prim.Native.Nat.{Ordering, compare}
use openzeppelin_monitor.Prelude.{ℕ, Bool, true, false, not, List, [], ◌∷◌, String, if◌then◌else◌}
use openzeppelin_monitor.Prelude.Int.{ℤ, compare_ℤ}
use openzeppelin_monitor.Prelude.Result.{Result, ok, err, ◌>>=◌}
use openzeppelin_monitor.Filter.Expression.{
  LiteralValue, ComparisonOperator, eq, ne, gt, gte, lt, lte, and, or, Accessor, base_name,
  accessors, Condition, Expression, condition, logical, EvaluationError, unsupported_operator,
}
use openzeppelin_monitor.Filter.Expression.Json.{
  Value, null, bool, number, string, Serde, resolve_path_to_json_value,
}

-- `get_base_param` gives the value and the kind of a variable.
pub record ConditionEvaluator : Type 0 where
  pub get_base_param : String → Result EvaluationError (String × String)
  pub compare_final_values :
      String → String → ComparisonOperator → LiteralValue → Result EvaluationError Bool
  pub get_kind_from_json_value : Value → String

-- The trait `Ord`.
pub record Ord (A : Type 0) : Type 0 where
  pub cmp : A → A → Ordering

instance abbrev pub ℕ-ord : Ord ℕ
ℕ-ord = record { cmp = compare }

instance abbrev pub ℤ-ord : Ord ℤ
ℤ-ord = record { cmp = compare_ℤ }

abbrev pub is_eq : Ordering → Bool
is_eq Ordering.eq = true
is_eq _ = false

abbrev pub is_gt : Ordering → Bool
is_gt Ordering.gt = true
is_gt _ = false

abbrev pub is_lt : Ordering → Bool
is_lt Ordering.lt = true
is_lt _ = false

unfoldable pub compare_ordered_values :
    {A : Type 0} ⦃o : Ord A⦄ → A → ComparisonOperator → A → Result EvaluationError Bool
compare_ordered_values ⦃o⦄ left eq right = ok (is_eq (o.cmp left right))
compare_ordered_values ⦃o⦄ left ne right = ok (not (is_eq (o.cmp left right)))
compare_ordered_values ⦃o⦄ left gt right = ok (is_gt (o.cmp left right))
compare_ordered_values ⦃o⦄ left gte right = ok (not (is_lt (o.cmp left right)))
compare_ordered_values ⦃o⦄ left lt right = ok (is_lt (o.cmp left right))
compare_ordered_values ⦃o⦄ left lte right = ok (not (is_gt (o.cmp left right)))
compare_ordered_values left _ right = err unsupported_operator

-- `bool::to_string`.
abbrev pub bool_to_string : Bool → String
bool_to_string true = "true"
bool_to_string false = "false"

abbrev pub value_to_string : Serde → Value → String
value_to_string serde null = "null"
value_to_string serde (bool b) = bool_to_string b
value_to_string serde (number n) = n
value_to_string serde (string s) = s
value_to_string serde v = serde.to_string v

module _ (serde : Serde) (evaluator : ConditionEvaluator) where
  -- The kind and the text of what the accessors lead to, from the variable's value and kind.
  unfoldable pub follow : List Accessor → String × String → Result EvaluationError (String × String)
  unfolding resolve_path_to_json_value
  follow [] (base_value_str, base_kind_str) = ok (base_kind_str, base_value_str)
  follow (accessor ∷ rest) (base_value_str, base_kind_str) = do
    resolved_value ← resolve_path_to_json_value serde base_value_str (accessor ∷ rest)
    ok (evaluator.get_kind_from_json_value resolved_value, value_to_string serde resolved_value)

  unfoldable pub evaluate_condition : Condition → Result EvaluationError Bool
  unfolding follow
  evaluate_condition c = do
    base_param ← evaluator.get_base_param (base_name c.left)
    (final_left_kind, final_left_value_str) ← follow (accessors c.left) base_param
    evaluator.compare_final_values final_left_kind final_left_value_str c.operator c.right

  unfoldable pub evaluate : Expression → Result EvaluationError Bool
  evaluate (condition c) = evaluate_condition c
  evaluate (logical left and right) = do
    left_val ← evaluate left
    let evaluated = evaluate right
    if not left_val then ok false else evaluated
  evaluate (logical left or right) = do
    left_val ← evaluate left
    let evaluated = evaluate right
    if left_val then ok true else evaluated
