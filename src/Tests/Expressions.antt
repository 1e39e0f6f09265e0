-- ===== src/Tests/Expressions.antt =====
-- Runs of src/services/filter/expression and of the evaluator of EVM conditions.
use Prim.Native.Char.{code}
use openzeppelin_monitor.Prelude.{
  ◌≡◌, ◌≢◌, refl, ap, Bool, true, false, List, [], ◌∷◌, none, some, str_eq, ◌==◌, if◌then◌else◌,
}
use openzeppelin_monitor.Prelude.Int.{pos}
use openzeppelin_monitor.Prelude.Result.{Result, ok, err}
use openzeppelin_monitor.Models.Evm.{MatchParamEntry}
use openzeppelin_monitor.Filter.Expression.{
  number, str, eq, ne, gt, and, simple, Condition, Expression, condition, logical, EvaluationError,
}
use openzeppelin_monitor.Filter.Expression.Json.{array, nil, cons}
use openzeppelin_monitor.Filter.Expression.Json
use openzeppelin_monitor.Filter.Expression.Evaluate.{evaluate, evaluate_condition}
use openzeppelin_monitor.Filter.Expression.Semantics.{Outcome, Agrees, evaluate-Outcome}
use openzeppelin_monitor.Filter.Evm.{Platform}
use openzeppelin_monitor.Filter.Evm.Helpers.{string_to_u256}
use openzeppelin_monitor.Filter.Evm.Evaluator.{evaluator, compare_final_values, get_base_param}
use openzeppelin_monitor.Filter.Evm.Evaluator.Negation.{negate, compare_final_values-negate}
use openzeppelin_monitor.Filter.Evm.Tuple.{parse_tuple_elements}
use openzeppelin_monitor.Filter.Evm.Tuple.Total.{parse_tuple_elements-ends}
use openzeppelin_monitor.Filter.Evm.Typing as Typing
use openzeppelin_monitor.Filter.Evm.Typing.{IsTyped, Conforms, Context, Class, unsigned, address}
use openzeppelin_monitor.Filter.Evm.Typing.Sound.{Succeeds, evaluate-Succeeds_of_IsTyped}

-- Texts in lower case, without outer spaces; the numbers 7 and 100; JSON texts of two shapes.
abbrev pub platform : Platform
platform = record {
  unicode = record { trim = λ t. t; to_lowercase = λ t. t };
  is_whitespace = λ c. code c == 32;
  serde = record {
    from_str = λ s. if str_eq s "[7]" then some (array (cons (Json.number "7") nil)) else none;
    to_string = λ v. "";
    number_eq = str_eq;
    is_negative_i64 = λ n. false;
  };
  decimals_equal = λ s t. some (str_eq s t);
  u256_from_hex = λ s. some 255;
  u256_from_str = λ s. if str_eq s "7" then some 7 else if str_eq s "100" then some 100 else none;
  i256_from_str = λ s. none;
  from_raw = λ n. pos n;
  debug_enabled = false;
}

abbrev value_arg : MatchParamEntry
value_arg = record { name = "value"; value = "100"; indexed = false; kind = "uint256" }

abbrev to_arg : MatchParamEntry
to_arg = record { name = "to"; value = "0xab"; indexed = false; kind = "address" }

abbrev args : List MatchParamEntry
args = value_arg ∷ to_arg ∷ []

-- value > 7
abbrev pub more_than_seven : Condition
more_than_seven = record { left = simple "value"; operator = gt; right = number "7" }

-- to != "ab"
abbrev pub elsewhere : Condition
elsewhere = record { left = simple "to"; operator = ne; right = str "ab" }

abbrev pub both : Expression
both = logical (condition more_than_seven) and (condition elsewhere)

-- The address differs from the literal in its prefix only.
runs : evaluate platform.serde (evaluator platform args) both ≡ ok false
unfolding evaluate evaluate_condition compare_final_values get_base_param
runs = refl

-- On an error the value does not matter.
abbrev value_or_true : Result EvaluationError Bool → Bool
value_or_true (ok b) = b
value_or_true (err e) = true

abbrev value_of : Condition → Bool
value_of c = value_or_true (evaluate_condition platform.serde (evaluator platform args) c)

value_of-Agrees : Agrees platform.serde (evaluator platform args) value_of
value_of-Agrees c b e = ap value_or_true e

evaluate-Outcome_example : Outcome platform.serde (evaluator platform args) value_of both
evaluate-Outcome_example =
    evaluate-Outcome platform.serde (evaluator platform args) value_of value_of-Agrees both

compare_final_values-negate_example :
    compare_final_values platform "uint256" "100" ne (number "7")
    ≡ negate (compare_final_values platform "uint256" "100" eq (number "7"))
compare_final_values-negate_example =
    compare_final_values-negate platform "uint256" "100" (number "7")

parse_tuple_elements-ends_example : parse_tuple_elements platform "7,(a,[7])" ≢ err none
parse_tuple_elements-ends_example = parse_tuple_elements-ends platform "7,(a,[7])"

abbrev declared : Context platform
declared = ("value", unsigned) ∷ ("to", address) ∷ []

both-IsTyped : IsTyped platform declared both
unfolding string_to_u256
both-IsTyped =
    Typing.logical (Typing.condition refl (Typing.unsigned_op refl refl (7, refl)))
      (Typing.condition refl (Typing.address_op refl))

args-Conforms : Conforms platform args declared
unfolding string_to_u256
args-Conforms = ((value_arg, refl, refl, (100, refl)), ((to_arg, refl, refl, tt), tt))

evaluate-Succeeds_of_IsTyped_example :
    Succeeds (evaluate platform.serde (evaluator platform args) both)
evaluate-Succeeds_of_IsTyped_example =
    evaluate-Succeeds_of_IsTyped platform declared args args-Conforms both both-IsTyped
