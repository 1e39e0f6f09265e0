-- ===== src/Filter/Expression/Semantics.antt =====
-- The meaning of an expression (src/services/filter/expression/helpers.rs, `evaluate`) as a formula
-- over the truth values of its conditions.
use openzeppelin_monitor.Prelude.{
  ◌≡◌, sym, ap, ◌∙◌, ◌⊎◌, inl, inr, Bool, ◌&&◌, ◌||◌, arith, Bool-cases,
}
use openzeppelin_monitor.Prelude.Result.{ok, err, Result-cases}
use openzeppelin_monitor.Filter.Expression.{
  LogicalOperator, and, or, Condition, Expression, condition, logical, EvaluationError,
}
use openzeppelin_monitor.Filter.Expression.Json.{Serde}
use openzeppelin_monitor.Filter.Expression.Evaluate.{
  ConditionEvaluator, evaluate_condition, evaluate,
}

abbrev pub connective : LogicalOperator → Bool → Bool → Bool
connective and a b = a && b
connective or a b = a || b

-- The formula's value where a condition `c` has the truth value `v c`.
abbrev pub truth : (Condition → Bool) → Expression → Bool
truth v (condition c) = v c
truth v (logical left op right) = connective op (truth v left) (truth v right)

pub data Occurs (c : Condition) : Expression → Type 0 where
  here : Occurs c (condition c)
  in_left : {l r : Expression} {op : LogicalOperator} → Occurs c l → Occurs c (logical l op r)
  in_right : {l r : Expression} {op : LogicalOperator} → Occurs c r → Occurs c (logical l op r)

module _ (serde : Serde) (evaluator : ConditionEvaluator) where
  -- The truth values agree with the conditions that can be evaluated; on the others they are free.
  abbrev pub Agrees : (Condition → Bool) → Type 0
  Agrees v = (c : Condition) (b : Bool) → evaluate_condition serde evaluator c ≡ ok b → v c ≡ b

  -- The error is that of a condition of the expression.
  abbrev pub Blames : Expression → EvaluationError → Type 0
  Blames e x = (c : Condition) × Occurs c e × (evaluate_condition serde evaluator c ≡ err x)

  abbrev pub Outcome : (Condition → Bool) → Expression → Type 0
  Outcome v e =
      (evaluate serde evaluator e ≡ ok (truth v e))
      ⊎ ((x : EvaluationError) × (evaluate serde evaluator e ≡ err x) × Blames e x)

  and-Outcome :
      (v : Condition → Bool) (l r : Expression)
      → evaluate serde evaluator l ≡ ok (truth v l)
      → Outcome v r
      → Outcome v (logical l and r)
  unfolding evaluate
  and-Outcome v l r e right = elim (Bool-cases (truth v l)) [
    | inl t ↦ elim right [
      | inl e' ↦ inl (ground arith)
      | inr (x, e', (c, at, blamed)) ↦ inr (x, ground arith, (c, in_right at, blamed))
    ]
    | inr f ↦ inl (ground arith)
  ]

  or-Outcome :
      (v : Condition → Bool) (l r : Expression)
      → evaluate serde evaluator l ≡ ok (truth v l)
      → Outcome v r
      → Outcome v (logical l or r)
  unfolding evaluate
  or-Outcome v l r e right = elim (Bool-cases (truth v l)) [
    | inl t ↦ inl (ground arith)
    | inr f ↦ elim right [
      | inl e' ↦ inl (ground arith)
      | inr (x, e', (c, at, blamed)) ↦ inr (x, ground arith, (c, in_right at, blamed))
    ]
  ]

  left_error :
      (l r : Expression) (op : LogicalOperator) (x : EvaluationError)
      → evaluate serde evaluator l ≡ err x
      → evaluate serde evaluator (logical l op r) ≡ err x
  unfolding evaluate
  left_error l r and x e = ground arith
  left_error l r or x e = ground arith

  logical-Outcome :
      (v : Condition → Bool) (l r : Expression) (op : LogicalOperator)
      → Outcome v l
      → Outcome v r
      → Outcome v (logical l op r)
  logical-Outcome v l r and (inl e) right = and-Outcome v l r e right
  logical-Outcome v l r or (inl e) right = or-Outcome v l r e right
  logical-Outcome v l r op (inr (x, e, (c, at, blamed))) right =
      inr (x, left_error l r op x e, (c, in_left at, blamed))

  -- For any truth values that agree with the conditions that can be evaluated, `evaluate` either gives
  -- the value of the formula with `&&` and `||` over them, or the error of a condition that occurs in
  -- the expression. So skipping the right side never changes a result.
  pub evaluate-Outcome : (v : Condition → Bool) → Agrees v → (e : Expression) → Outcome v e
  unfolding evaluate
  evaluate-Outcome v agrees (condition c) =
      elim (Result-cases (evaluate_condition serde evaluator c)) [
        | inl (b, e) ↦ inl (e ∙ ap ok (sym (agrees c b e)))
        | inr (x, e) ↦ inr (x, e, (c, here, e))
      ]
  evaluate-Outcome v agrees (logical left op right) =
      logical-Outcome v left right op (evaluate-Outcome v agrees left)
        (evaluate-Outcome v agrees right)
