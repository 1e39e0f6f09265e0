-- ===== src/Filter/Evm/Tuple.antt =====
-- src/services/filter/filters/evm/evaluator.rs: the texts of tuples, (value1,value2,…). The quote that
-- is open stands for `in_quotes` and `quote_char` together. The recursion into nested tuples runs on
-- fuel, where `err none` means that it ran out.
pub mod Total
pub mod Whitespace
use Prim.Native.Char.{Char, code}
use Prim.Native.String.{[], ◌∷◌}
use text.Mathlib.Text.{starts_with}
use openzeppelin_monitor.Prelude.{
  ℕ, zero, suc, Bool, true, false, not, ◌&&◌, ◌||◌, Option, none, some, String, ◌==◌, if◌then◌else◌,
}
use openzeppelin_monitor.Prelude.Chars.{is_empty_str, is_char, ends_with, between, count_chars}
use openzeppelin_monitor.Prelude.Int.{ℤ, pos, succ, pred, is_zero}
use openzeppelin_monitor.Prelude.Result.{Result, ok, err, ◌>>=◌}
use openzeppelin_monitor.Filter.Expression.{EvaluationError, parse_error}
use openzeppelin_monitor.Filter.Expression.Json.{Value, string, array, Items, nil, cons}
use openzeppelin_monitor.Filter.Evm.{Platform}

abbrev pub is_none {ℓ} : {A : Type ℓ} → Option A → Bool
is_none none = true
is_none (some a) = false

abbrev pub is_quote : Char → Bool
is_quote c = is_char b'"' c || is_char 39 c

abbrev pub is_opening : Char → Bool
is_opening c = is_char b'[' c || is_char b'{' c || is_char b'(' c

abbrev pub is_closing : Char → Bool
is_closing c = is_char b']' c || is_char b'}' c || is_char b')' c

abbrev pub is_backslash : Option Char → Bool
is_backslash none = false
is_backslash (some c) = is_char 92 c

-- The quote that is open after `ch`, where `prev` stands before it in the element.
unfoldable pub next_quote : Option Char → Option Char → Char → Option Char
next_quote none prev ch = if is_quote ch then some ch else none
next_quote (some q) prev ch =
    if is_quote ch && is_char (code q) ch && not (is_backslash prev) then none else some q

unfoldable pub next_depth : ℤ → Option Char → Char → ℤ
next_depth depth none ch =
    if is_opening ch then succ depth else if is_closing ch then pred depth else depth
next_depth depth (some q) ch = depth

abbrev pub ends_element : ℤ → Option Char → Char → Bool
ends_element depth quote ch = is_zero depth && is_none quote && is_char b',' ch

-- The element and what is left of the stream.
unfoldable pub parse_single_element : ℤ → Option Char → Option Char → String → String × String
unfolding next_quote next_depth
parse_single_element depth quote prev [] = ([], [])
parse_single_element depth quote prev (ch ∷ chars) =
    let taken =
      parse_single_element (next_depth depth quote ch) (next_quote quote prev ch) (some ch) chars in
    if ends_element depth quote ch then ([], ch ∷ chars) else (ch ∷ taken.0, taken.1)

abbrev pub skip_comma : String → String
skip_comma [] = []
skip_comma (ch ∷ chars) = if is_char b',' ch then chars else ch ∷ chars

abbrev pub Parsed : Type 0 → Type 0
Parsed A = Result (Option EvaluationError) A

abbrev pub json_or : Value → Option Value → Value
json_or v none = v
json_or v (some w) = w

-- `if !current.is_empty() { elements.push(value) }`.
abbrev pub push_front : Option Value → Items → Items
push_front none items = items
push_front (some v) items = cons v items

abbrev pub required : Option Value → Parsed (Option Value)
required none = err (some parse_error)
required (some v) = ok (some v)

abbrev pub is_nested_tuple : String → Bool
is_nested_tuple current = starts_with current "(" && ends_with current ")"

module _ (platform : Platform) where
  abbrev pub json_element : String → Parsed (Option Value)
  json_element current = required (platform.serde.from_str current)

  -- The value of an element; `nested` parses the inside of a tuple.
  unfoldable pub element : (String → Parsed Items) → String → Parsed (Option Value)
  element nested current =
      if is_empty_str current
      then ok none
      else if is_nested_tuple current
      then (do items ← nested (between current); ok (some (array items)))
      else if starts_with current "[" || starts_with current "{"
      then json_element current
      else ok (some (json_or (string current) (platform.serde.from_str current)))

  -- `if content.trim().is_empty() { return Ok(vec![]) }`.
  abbrev pub unless_blank : (String → Parsed Items) → String → Parsed Items
  unless_blank parse content =
      if is_empty_str (platform.unicode.trim content) then ok nil else parse content

  -- The loop over the stream.
  unfoldable pub parse_elements : ℕ → String → Parsed Items
  unfolding element parse_single_element
  parse_elements zero chars = err none
  parse_elements (suc fuel) [] = ok nil
  parse_elements (suc fuel) (ch ∷ chars) =
      let parsed = parse_single_element (pos 0) none none (ch ∷ chars) in
      do
        value ← element (unless_blank (parse_elements fuel)) parsed.0
        items ← parse_elements fuel (skip_comma parsed.1)
        ok (push_front value items)

  unfoldable pub parse_tuple_elements : String → Parsed Items
  unfolding parse_elements
  parse_tuple_elements content = unless_blank (parse_elements (suc (count_chars content))) content

  unfoldable pub normalize : Option Char → String → String
  normalize quote [] = []
  normalize none (ch ∷ chars) =
      let quoted = normalize (some ch) chars in
      let rest = normalize none chars in
      if is_quote ch then ch ∷ quoted else if platform.is_whitespace ch then rest else ch ∷ rest
  normalize (some q) (ch ∷ chars) =
      let closed = normalize none chars in
      let rest = normalize (some q) chars in if is_char (code q) ch then ch ∷ closed else ch ∷ rest

  unfoldable pub normalize_tuple_whitespace : String → String
  unfolding normalize
  normalize_tuple_whitespace tuple_str = normalize none tuple_str
