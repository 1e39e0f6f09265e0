-- ===== src/Filter/Evm/Tuple/Total.antt =====
-- The fuel of `parse_tuple_elements` (src/services/filter/filters/evm/evaluator.rs).
use Prim.Native.Char.{Char}
use Prim.Native.String.{[], ◌∷◌}
use text.Mathlib.Text.{starts_with}
use openzeppelin_monitor.Prelude.{
  ℕ, zero, suc, ◌+◌, ◌≤◌, ◌<◌, ◌≡◌, ◌≢◌, refl, subst, ◌||◌, Bool, true, false, Option, none, some,
  String, arith, Bool-cases, inl, inr, if◌then◌else◌,
}
use openzeppelin_monitor.Prelude.Chars.{count_chars, is_empty_str, drop_last, is_char}
use openzeppelin_monitor.Prelude.Int.{ℤ, pos}
use openzeppelin_monitor.Prelude.Result.{Result, ok, err, ◌>>=◌}
use openzeppelin_monitor.Filter.Expression.{EvaluationError}
use openzeppelin_monitor.Filter.Expression.Json.{Value, Items, nil}
use openzeppelin_monitor.Filter.Evm.{Platform}
use openzeppelin_monitor.Filter.Evm.Tuple.{
  parse_single_element, ends_element, next_depth, next_quote, skip_comma, Parsed, element,
  unless_blank, parse_elements, is_nested_tuple, parse_tuple_elements, required,
}

-- The fuel did not run out.
abbrev Finishes {ℓ} : {A : Type ℓ} → Result (Option EvaluationError) A → Type 0
Finishes (ok a) = Unit
Finishes (err none) = ⊥
Finishes (err (some e)) = Unit

>>=-Finishes :
    {A B : Type 0} (m : Parsed A) (f : A → Parsed B)
    → Finishes m
    → ((a : A) → Finishes (f a))
    → Finishes (m >>= f)
>>=-Finishes (ok a) f h k = k a
>>=-Finishes (err (some e)) f h k = tt
>>=-Finishes (err none) f h k = h

if-Finishes :
    {A : Type 0} (b : Bool) (x y : Parsed A)
    → Finishes x
    → (b ≡ false → Finishes y)
    → Finishes (if b then x else y)
if-Finishes true x y h k = h
if-Finishes false x y h k = k refl

-- No character is lost or made.
pub count-parse_single_element :
    (depth : ℤ) (quote prev : Option Char) (s : String)
    → count_chars (parse_single_element depth quote prev s).0
        + count_chars (parse_single_element depth quote prev s).1
      ≡ count_chars s
unfolding parse_single_element
count-parse_single_element depth quote prev [] = omega arith
count-parse_single_element depth quote prev (c ∷ s) =
    elim (Bool-cases (ends_element depth quote c)) [
      | inl e ↦ rw e (omega arith)
      | inr e ↦ rw e (
          omega (
            arith,
            count-parse_single_element (next_depth depth quote c) (next_quote quote prev c) (some c)
                s,
          ))
    ]

count-skip_comma : (s : String) → count_chars (skip_comma s) ≤ count_chars s
count-skip_comma [] = omega arith
count-skip_comma (c ∷ s) = ground arith

-- A round of the loop takes a character at least: an empty element stands before a comma.
skip_comma-lt :
    (c : Char) (s : String)
    → count_chars (skip_comma (parse_single_element (pos 0) none none (c ∷ s)).1)
      < suc (count_chars s)
unfolding parse_single_element
skip_comma-lt c s = elim (Bool-cases (is_char b',' c)) [
  | inl e ↦ rw (e, e) (omega arith)
  | inr e ↦ rw e (
      omega (
        arith,
        count-skip_comma
            (parse_single_element (next_depth (pos 0) none c) (next_quote none none c) (some c)
              s).1,
        count-parse_single_element (next_depth (pos 0) none c) (next_quote none none c) (some c) s,
      ))
]

count-drop_last : (s : String) → count_chars (drop_last s) ≤ count_chars s
count-drop_last [] = omega arith
count-drop_last (c ∷ []) = omega arith
count-drop_last (c ∷ d ∷ s) = omega (arith, count-drop_last (d ∷ s))

required-Finishes : (o : Option Value) → Finishes (required o)
required-Finishes none = tt
required-Finishes (some v) = tt

module _ (platform : Platform) where
  element-Finishes :
      (nested : String → Parsed Items) (current : String)
      → ((inner : String) → count_chars inner < count_chars current → Finishes (nested inner))
      → Finishes (element platform nested current)
  unfolding element
  element-Finishes nested [] h = tt
  element-Finishes nested (c ∷ s) h =
      if-Finishes (is_nested_tuple (c ∷ s)) _ _
        (>>=-Finishes (nested (drop_last s)) _ (h (drop_last s) (omega (arith, count-drop_last s)))
          (λ items. tt))
        λ _.
          if-Finishes (starts_with (c ∷ s) "[" || starts_with (c ∷ s) "{") _ _
            (required-Finishes (platform.serde.from_str (c ∷ s))) (λ _. tt)

  parse_elements-Finishes :
      (fuel : ℕ) (s : String) → count_chars s < fuel → Finishes (parse_elements platform fuel s)
  unfolding parse_elements
  parse_elements-Finishes zero s h = absurd (omega arith)
  parse_elements-Finishes (suc fuel) [] h = tt
  parse_elements-Finishes (suc fuel) (c ∷ s) h =
      >>=-Finishes
        (element platform (unless_blank platform (parse_elements platform fuel))
          (parse_single_element (pos 0) none none (c ∷ s)).0)
        _
        (element-Finishes (unless_blank platform (parse_elements platform fuel))
          (parse_single_element (pos 0) none none (c ∷ s)).0
          λ inner lt. if-Finishes (is_empty_str (platform.unicode.trim inner)) (ok nil) _ tt λ _.
            parse_elements-Finishes fuel inner
              (omega (arith, count-parse_single_element (pos 0) none none (c ∷ s))))
        λ value.
          >>=-Finishes _ _
            (parse_elements-Finishes fuel
              (skip_comma (parse_single_element (pos 0) none none (c ∷ s)).1)
              (omega (arith, skip_comma-lt c s)))
            λ items. tt

  -- The parser of tuple elements, nested tuples included, ends within its fuel on every text.
  pub parse_tuple_elements-ends :
      (content : String) → parse_tuple_elements platform content ≢ err none
  unfolding parse_tuple_elements
  parse_tuple_elements-ends content e = subst Finishes e (
      if-Finishes (is_empty_str (platform.unicode.trim content)) (ok nil) _ tt
        λ _. parse_elements-Finishes (suc (count_chars content)) content (omega arith))
