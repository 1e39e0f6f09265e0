-- ===== src/Filter/Evm/Typing/Sound.antt =====
-- Typed expressions (src/services/filter/filters/evm/evaluator.rs).
use openzeppelin_monitor.Prelude.{
  ◌≡◌, refl, Bool, true, false, not, List, [], Option, some, String, str_eq, ◌∷◌, arith,
  if◌then◌else◌, ◌∙◌, ap, subst, Bool-cases, inl, inr, eq_iff,
}
use mathlib.Core.Option.{some-injective}
use openzeppelin_monitor.Prelude.Dict.{lookup}
use openzeppelin_monitor.Prelude.Result.{Result, ok, ◌>>=◌, ok_or, ensure}
use openzeppelin_monitor.Filter.Expression.{
  LiteralValue, bool, str, number, ComparisonOperator, eq, ne, gt, gte, lt, lte, contains,
  Expression, EvaluationError, parse_error, LogicalOperator, and, or,
}
use openzeppelin_monitor.Filter.Expression as Ast
use openzeppelin_monitor.Filter.Expression.Json.{Serde, Items, array}
use openzeppelin_monitor.Filter.Expression.Evaluate.{
  ConditionEvaluator, Ord, ℕ-ord, ℤ-ord, compare_ordered_values, evaluate, evaluate_condition,
}
use openzeppelin_monitor.Models.Evm.{MatchParamEntry}
use openzeppelin_monitor.Filter.Evm.{Platform}
use openzeppelin_monitor.Filter.Evm.Kinds.{
  lower, contains_str, signed_integer_kinds, unsigned_integer_kinds, array_kinds,
}
use openzeppelin_monitor.Filter.Evm.Evaluator.{
  Compare, string_test, parsed_items, value_and_kind, equality, evaluator, compare_array,
  compare_tuple, compare_u256, compare_i256, compare_address, compare_string, compare_boolean,
  comparison, compare_final_values, arrays_equal, array_contains, rhs_target, get_base_param,
  tuple_contains,
}
use openzeppelin_monitor.Filter.Evm.Typing.{
  HasValue, Class, signed, unsigned, array_like, address, textual, boolean, tuple, class_of,
  is_ordering, is_equality, is_textual, HasClass, Permits, Context, IsTyped, condition, logical,
  Conforms, signed_op, unsigned_op, array_eq, array_contains as contains_op, address_op, text_op,
  boolean_op, tuple_eq, tuple_contains as tuple_contains_op,
}

-- The evaluation gives a truth value.
abbrev pub Succeeds : Result EvaluationError Bool → Type 0
Succeeds r = (b : Bool) × (r ≡ ok b)

compare_ordered_values-Succeeds :
    {A : Type 0} ⦃o : Ord A⦄ (l r : A) (op : ComparisonOperator)
    → is_ordering op ≡ true
    → Succeeds (compare_ordered_values l op r)
unfolding compare_ordered_values
compare_ordered_values-Succeeds l r eq h = (_, refl)
compare_ordered_values-Succeeds l r ne h = (_, refl)
compare_ordered_values-Succeeds l r gt h = (_, refl)
compare_ordered_values-Succeeds l r gte h = (_, refl)
compare_ordered_values-Succeeds l r lt h = (_, refl)
compare_ordered_values-Succeeds l r lte h = (_, refl)
compare_ordered_values-Succeeds l r _ h = absurd (cc)

equality-Succeeds :
    (op : ComparisonOperator) (b : Bool) → is_equality op ≡ true → Succeeds (equality op b)
equality-Succeeds eq b h = (b, refl)
equality-Succeeds ne b h = (not b, refl)
equality-Succeeds _ b h = absurd (cc)

>>=-ok :
    {A B : Type 0} {m : Result EvaluationError A} (f : A → Result EvaluationError B) {a : A} {b : B}
    → m ≡ ok a
    → f a ≡ ok b
    → (m >>= f) ≡ ok b
>>=-ok f e h = ap (λ r. r >>= f) e ∙ h

>>=-Succeeds :
    {A : Type 0} {m : Result EvaluationError A} (f : A → Result EvaluationError Bool) {a : A}
    → m ≡ ok a
    → Succeeds (f a)
    → Succeeds (m >>= f)
>>=-Succeeds f e (b, h) = (b, ap (λ r. r >>= f) e ∙ h)

ok_or-ok : {A : Type 0} (x : EvaluationError) {o : Option A} {a : A} → o ≡ some a → ok_or x o ≡ ok a
ok_or-ok x e = ap (ok_or x) e

string_test-Succeeds :
    (platform : Platform) (op : ComparisonOperator) (l r : String)
    → is_textual op ≡ true
    → Succeeds (string_test platform l op r)
string_test-Succeeds platform eq l r h = (_, refl)
string_test-Succeeds platform ne l r h = (_, refl)
string_test-Succeeds platform Ast.starts_with l r h = (_, refl)
string_test-Succeeds platform Ast.ends_with l r h = (_, refl)
string_test-Succeeds platform contains l r h = (_, refl)
string_test-Succeeds platform _ l r h = absurd (cc)

logical-Succeeds :
    (serde : Serde) (ev : ConditionEvaluator) (op : LogicalOperator) (l r : Expression)
    → Succeeds (evaluate serde ev l)
    → Succeeds (evaluate serde ev r)
    → Succeeds (evaluate serde ev (Ast.logical l op r))
unfolding evaluate
logical-Succeeds serde ev and l r (false, e) (b, e') = (false, ground arith)
logical-Succeeds serde ev and l r (true, e) (b, e') = (b, ground arith)
logical-Succeeds serde ev or l r (false, e) (b, e') = (b, ground arith)
logical-Succeeds serde ev or l r (true, e) (b, e') = (true, ground arith)

module _ (platform : Platform) where
  abbrev compare_class : Class → Compare
  compare_class signed = compare_i256 platform
  compare_class unsigned = compare_u256 platform
  compare_class array_like = compare_array platform
  compare_class address = compare_address platform
  compare_class textual = compare_string platform
  compare_class boolean = compare_boolean platform
  compare_class tuple = compare_tuple platform

  class_case :
      (b : Bool) (k c : Class) {o : Option Class} {g : Compare}
      → (o ≡ some c → g ≡ compare_class c)
      → (if b then some k else o) ≡ some c
      → (if b then compare_class k else g) ≡ compare_class c
  class_case true k c rest h = ap compare_class (some-injective _ _ h)
  class_case false k c rest h = rest h

  comparison-class_of :
      (kind : String) (c : Class)
      → class_of kind ≡ some c
      → comparison platform kind ≡ compare_class c
  unfolding comparison
  comparison-class_of kind c = class_case (contains_str signed_integer_kinds kind) signed c (
      class_case (contains_str unsigned_integer_kinds kind) unsigned c (
        class_case (contains_str array_kinds kind) array_like c (
          class_case (str_eq kind "address") address c (
            class_case (contains_str ("string" ∷ "bytes" ∷ "bytes32" ∷ []) kind) textual c (
              class_case (str_eq kind "bool") boolean c
                (class_case (str_eq kind "tuple") tuple c (λ none_is. absurd (cc))))))))

  arrays :
      (op : ComparisonOperator) (v s : String) (xs ys : Items)
      → is_equality op ≡ true
      → platform.serde.from_str (lower platform v) ≡ some (array xs)
      → platform.serde.from_str (lower platform s) ≡ some (array ys)
      → Succeeds (compare_array platform v op (str s))
  unfolding compare_array arrays_equal rhs_target
  arrays eq v s xs ys h e e' =
      >>=-Succeeds _ (>>=-ok _ (ok_or-ok parse_error e) (>>=-ok _ (ok_or-ok parse_error e') refl))
        (_, refl)
  arrays ne v s xs ys h e e' =
      >>=-Succeeds _ (>>=-ok _ (ok_or-ok parse_error e) (>>=-ok _ (ok_or-ok parse_error e') refl))
        (_, refl)
  arrays _ v s xs ys h e e' = absurd (cc)

  tuples :
      (op : ComparisonOperator) (v s : String)
      → is_equality op ≡ true
      → Succeeds (compare_tuple platform v op (str s))
  unfolding compare_tuple rhs_target
  tuples eq v s h = (_, refl)
  tuples ne v s h = (_, refl)
  tuples _ v s h = absurd (cc)

  compare_class-Succeeds :
      (c : Class) (v : String) (op : ComparisonOperator) (lit : LiteralValue)
      → HasClass platform c v
      → Permits platform c op lit
      → Succeeds (compare_class c v op lit)
  unfolding compare_i256 compare_u256 compare_array compare_tuple compare_address compare_string
      compare_boolean rhs_target arrays_equal array_contains tuple_contains
  compare_class-Succeeds signed v op lit (n, e) (signed_op ordering target (m, e')) =
      >>=-Succeeds _ (ok_or-ok parse_error e) (
        >>=-Succeeds _ target (
          >>=-Succeeds _ (ok_or-ok parse_error e')
            (compare_ordered_values-Succeeds n m op ordering)))
  compare_class-Succeeds unsigned v op lit (n, e) (unsigned_op ordering target (m, e')) =
      >>=-Succeeds _ (ok_or-ok parse_error e) (
        >>=-Succeeds _ target (
          >>=-Succeeds _ (ok_or-ok parse_error e')
            (compare_ordered_values-Succeeds n m op ordering)))
  compare_class-Succeeds array_like v op lit (_, (lowered, e))
        (array_eq {s = s} equal (others, e')) =
      arrays op v s lowered others equal e e'
  compare_class-Succeeds array_like v op lit ((items, e), _) (contains_op target) =
      >>=-Succeeds _ target (>>=-Succeeds _ (ok_or-ok parse_error e) (_, refl))
  compare_class-Succeeds address v op lit _ (address_op equal) = equality-Succeeds op _ equal
  compare_class-Succeeds textual v op lit _ (text_op h) = string_test-Succeeds platform op _ _ h
  compare_class-Succeeds boolean v op lit (b, e) (boolean_op equal) =
      >>=-Succeeds _ (ok_or-ok parse_error e) (equality-Succeeds op _ equal)
  compare_class-Succeeds tuple v op lit (brackets, (items, e)) (tuple_eq {s = s} equal) =
      tuples op v s equal
  compare_class-Succeeds tuple v op lit (brackets, (items, e)) (tuple_contains_op target) =
      >>=-Succeeds _ target (
        >>=-Succeeds _ (ap (λ b. ensure b parse_error) brackets)
          (>>=-Succeeds _ (ap (parsed_items platform) e) (_, refl)))

  HasValue-lookup :
      (args : List MatchParamEntry) (Γ : Context platform) (name : String) (c : Class)
      → Conforms platform args Γ
      → lookup name Γ ≡ some c
      → HasValue platform args (name, c)
  HasValue-lookup args [] name c h e = absurd (cc)
  HasValue-lookup args ((j, k) ∷ Γ) name c (here, rest) e = elim (Bool-cases (str_eq j name)) [
    | inl same ↦
        subst (λ i. HasValue platform args (i, c)) ((eq_iff j name).0 same)
          (subst (λ d. HasValue platform args (j, d)) (some-injective _ _ (rw same at e)) here)
    | inr other ↦ HasValue-lookup args Γ name c rest (rw other at e)
  ]

  -- An expression that is typed in a context evaluates without an error, to a truth value, for all
  -- arguments that conform to the context.
  pub evaluate-Succeeds_of_IsTyped :
      (Γ : Context platform) (args : List MatchParamEntry)
      → Conforms platform args Γ
      → (e : Expression) → IsTyped platform Γ e
      → Succeeds (evaluate platform.serde (evaluator platform args) e)
  unfolding evaluate evaluate_condition get_base_param compare_final_values
  evaluate-Succeeds_of_IsTyped Γ args conforms e
        (condition {name} {c} {op} {lit} declared permits) =
      let (p, found, kind, value) = HasValue-lookup args Γ name c conforms declared in
      let (b, h) = compare_class-Succeeds c p.value op lit value permits in
      >>=-Succeeds _ (ap (value_and_kind platform) found)
        (b, ap (λ f. f p.value op lit) (comparison-class_of (lower platform p.kind) c kind) ∙ h)
  evaluate-Succeeds_of_IsTyped Γ args conforms e (logical {l} {r} {op} typed_l typed_r) =
      logical-Succeeds platform.serde (evaluator platform args) op l r
        (evaluate-Succeeds_of_IsTyped Γ args conforms l typed_l)
        (evaluate-Succeeds_of_IsTyped Γ args conforms r typed_r)
