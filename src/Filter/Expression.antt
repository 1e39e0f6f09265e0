-- ===== src/Filter/Expression.antt =====
-- src/services/filter/expression/ast.rs and error.rs: the syntax tree of a filter expression and the
-- errors of its evaluation. The context of an error (message, source, metadata) is left out. The
-- parser of parsing.rs, which stands on the crate winnow, is a parameter where it is called.
pub mod Json
pub mod Evaluate
pub mod Semantics
use openzeppelin_monitor.Prelude.{ℕ, Bool, List, [], String}

pub data LiteralValue : Type 0 where
  bool : Bool → LiteralValue
  str : String → LiteralValue
  number : String → LiteralValue

pub data ComparisonOperator : Type 0 where
  eq ne gt gte lt lte starts_with ends_with contains : ComparisonOperator

pub data LogicalOperator : Type 0 where
  and or : LogicalOperator

pub data Accessor : Type 0 where
  index : ℕ → Accessor
  key : String → Accessor

pub record VariablePath : Type 0 where
  pub base : String
  pub accessors : List Accessor

pub data ConditionLeft : Type 0 where
  simple : String → ConditionLeft
  path : VariablePath → ConditionLeft

abbrev pub base_name : ConditionLeft → String
base_name (simple name) = name
base_name (path p) = p.base

abbrev pub accessors : ConditionLeft → List Accessor
accessors (simple name) = []
accessors (path p) = p.accessors

pub record Condition : Type 0 where
  pub left : ConditionLeft
  pub operator : ComparisonOperator
  pub right : LiteralValue

pub data Expression : Type 0 where
  condition : Condition → Expression
  logical : Expression → LogicalOperator → Expression → Expression

pub data EvaluationError : Type 0 where
  variable_not_found type_mismatch unsupported_operator parse_error : EvaluationError
  index_out_of_bounds field_not_found : EvaluationError
