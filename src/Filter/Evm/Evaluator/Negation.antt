-- ===== src/Filter/Evm/Evaluator/Negation.antt =====
-- `Eq` and `Ne` of src/services/filter/filters/evm/evaluator.rs.
use openzeppelin_monitor.Prelude.{
  ◌≡◌, refl, Bool, true, false, not, str_eq, [], ◌∷◌, String, inl, inr, if◌then◌else◌,
}
use openzeppelin_monitor.Prelude.Result.{Result, ok, err, ◌>>=◌, ok_or, Result-cases}
use openzeppelin_monitor.Filter.Expression.{
  LiteralValue, bool, str, number, eq, ne, EvaluationError, parse_error, type_mismatch,
}
use openzeppelin_monitor.Filter.Expression.Evaluate.{compare_ordered_values, ℕ-ord, ℤ-ord}
use openzeppelin_monitor.Filter.Evm.{Platform}
use openzeppelin_monitor.Filter.Evm.Kinds.{
  contains_str, signed_integer_kinds, unsigned_integer_kinds, array_kinds, lower,
}
use openzeppelin_monitor.Filter.Evm.Helpers.{string_to_u256, string_to_i256}
use openzeppelin_monitor.Filter.Evm.Evaluator.{
  compare_array, compare_tuple, compare_u256, compare_i256, compare_address, compare_string,
  compare_boolean, comparison, compare_final_values, Compare, arrays_equal, rhs_target, parse_bool,
  number_or_str, only_bool,
}

-- The opposite Boolean, or the same error.
abbrev pub negate : Result EvaluationError Bool → Result EvaluationError Bool
negate (ok b) = ok (not b)
negate (err e) = err e

record Negates (f : Compare) : Type 0 where
  negates : (lhs : String) (lit : LiteralValue) → f lhs ne lit ≡ negate (f lhs eq lit)

>>=-negate :
    {A : Type 0} (m : Result EvaluationError A) (f g : A → Result EvaluationError Bool)
    → ((a : A) → f a ≡ negate (g a))
    → (m >>= f) ≡ negate (m >>= g)
>>=-negate (ok a) f g h = h a
>>=-negate (err e) f g h = refl

if-Negates :
    (b : Bool) (f : Compare) {g : Compare} → Negates f → Negates g → Negates (if b then f else g)
if-Negates true f nf ng = nf
if-Negates false f nf ng = ng

err-Negates : (x : EvaluationError) → Negates (λ lhs operator lit. err x)
err-Negates x = record { negates = λ lhs lit. refl }

module _ (platform : Platform) where
  compare_array-negate :
      (lhs : String) (lit : LiteralValue)
      → compare_array platform lhs ne lit ≡ negate (compare_array platform lhs eq lit)
  unfolding compare_array rhs_target
  compare_array-negate lhs (str s) = elim (Result-cases (arrays_equal platform lhs s)) [
    | inl (b, e) ↦ rw e
    | inr (x, e) ↦ rw e
  ]
  compare_array-negate lhs (number s) = refl
  compare_array-negate lhs (bool b) = refl

  compare_tuple-negate :
      (lhs : String) (lit : LiteralValue)
      → compare_tuple platform lhs ne lit ≡ negate (compare_tuple platform lhs eq lit)
  unfolding compare_tuple rhs_target
  compare_tuple-negate lhs (str s) = refl
  compare_tuple-negate lhs (number s) = refl
  compare_tuple-negate lhs (bool b) = refl

  compare_u256-negate :
      (lhs : String) (lit : LiteralValue)
      → compare_u256 platform lhs ne lit ≡ negate (compare_u256 platform lhs eq lit)
  unfolding compare_u256 compare_ordered_values
  compare_u256-negate lhs lit =
      >>=-negate (ok_or parse_error (string_to_u256 platform lhs)) _ _ λ left.
        >>=-negate (number_or_str lit) _ _ λ right_str.
          >>=-negate (ok_or parse_error (string_to_u256 platform right_str)) _ _ λ right. refl

  compare_i256-negate :
      (lhs : String) (lit : LiteralValue)
      → compare_i256 platform lhs ne lit ≡ negate (compare_i256 platform lhs eq lit)
  unfolding compare_i256 compare_ordered_values
  compare_i256-negate lhs lit =
      >>=-negate (ok_or parse_error (string_to_i256 platform lhs)) _ _ λ left.
        >>=-negate (number_or_str lit) _ _ λ right_str.
          >>=-negate (ok_or parse_error (string_to_i256 platform right_str)) _ _ λ right. refl

  compare_address-negate :
      (lhs : String) (lit : LiteralValue)
      → compare_address platform lhs ne lit ≡ negate (compare_address platform lhs eq lit)
  unfolding compare_address
  compare_address-negate lhs (str s) = refl
  compare_address-negate lhs (number s) = refl
  compare_address-negate lhs (bool b) = refl

  compare_string-negate :
      (lhs : String) (lit : LiteralValue)
      → compare_string platform lhs ne lit ≡ negate (compare_string platform lhs eq lit)
  unfolding compare_string
  compare_string-negate lhs (str s) = refl
  compare_string-negate lhs (number s) = refl
  compare_string-negate lhs (bool b) = refl

  compare_boolean-negate :
      (lhs : String) (lit : LiteralValue)
      → compare_boolean platform lhs ne lit ≡ negate (compare_boolean platform lhs eq lit)
  unfolding compare_boolean
  compare_boolean-negate lhs lit =
      >>=-negate (ok_or parse_error (parse_bool lhs)) _ _
        λ left. >>=-negate (only_bool lit) _ _ λ right. refl

  -- Whatever the kind, `Ne` gives the opposite of what `Eq` gives, and the same error where `Eq` fails.
  pub compare_final_values-negate :
      (kind lhs : String) (lit : LiteralValue)
      → compare_final_values platform kind lhs ne lit
        ≡ negate (compare_final_values platform kind lhs eq lit)
  unfolding compare_final_values comparison
  compare_final_values-negate kind lhs lit =
      (if-Negates (contains_str signed_integer_kinds (lower platform kind)) (compare_i256 platform)
          (record { negates = compare_i256-negate })
          (if-Negates (contains_str unsigned_integer_kinds (lower platform kind))
            (compare_u256 platform) (record { negates = compare_u256-negate })
            (if-Negates (contains_str array_kinds (lower platform kind)) (compare_array platform)
              (record { negates = compare_array-negate })
              (if-Negates (str_eq (lower platform kind) "address") (compare_address platform)
                (record { negates = compare_address-negate })
                (if-Negates
                  (contains_str ("string" ∷ "bytes" ∷ "bytes32" ∷ []) (lower platform kind))
                  (compare_string platform) (record { negates = compare_string-negate })
                  (if-Negates (str_eq (lower platform kind) "bool") (compare_boolean platform)
                    (record { negates = compare_boolean-negate })
                    (if-Negates (str_eq (lower platform kind) "tuple") (compare_tuple platform)
                      (record { negates = compare_tuple-negate })
                      (err-Negates type_mismatch)))))))).negates
        lhs lit
