-- ===== src/Models/Parse.antt =====
-- The integer parsing of Rust's standard library that the models call (`u64::from_str_radix`,
-- `str::trim_start_matches`), over texts as lists of code points.
use openzeppelin_monitor.Prelude.{
  ℕ, ◌+◌, ◌-◌, ◌*◌, ◌≡◌, true, false, ◌&&◌, List, [], ◌∷◌, Option, none, some, arith, ◌≤◌,
  Option-cases, Bool-cases, inl, inr, leb, ltb, ◌==◌, if◌then◌else◌,
}

-- `char::to_digit`.
unfoldable pub to_digit : ℕ → ℕ → Option ℕ
to_digit radix c =
    let value =
      if leb b'0' c && leb c b'9'
      then c - b'0'
      else if leb b'a' c && leb c b'z'
      then c - b'a' + 10
      else if leb b'A' c && leb c b'Z'
      then c - b'A' + 10
      else radix in
    if ltb value radix then some value else none

abbrev pub u64_max : ℕ
u64_max = 18446744073709551615

-- One digit is added by `checked_mul` and `checked_add`: a number above `u64::MAX` is an error.
unfoldable pub accumulate : ℕ → ℕ → List ℕ → Option ℕ
accumulate radix acc [] = some acc
accumulate radix acc (c ∷ cs) = elim (to_digit radix c) [
  | none ↦ none
  | some d ↦ elim (leb (acc * radix + d) u64_max) [
    | true ↦ accumulate radix (acc * radix + d) cs
    | false ↦ none
  ]
]

-- A leading `+` is allowed; the empty text and a lone sign are errors.
unfoldable pub from_str_radix : ℕ → List ℕ → Option ℕ
unfolding accumulate to_digit
from_str_radix radix [] = none
from_str_radix radix (c ∷ []) = if c == b'+' then none else accumulate radix 0 (c ∷ [])
from_str_radix radix (c ∷ d ∷ cs) = accumulate radix 0 (if c == b'+' then d ∷ cs else c ∷ d ∷ cs)

-- `trim_start_matches("0x")` drops the prefix as often as it is there.
pub trim_start_0x : List ℕ → List ℕ
trim_start_0x (z ∷ x ∷ cs) =
    let rest = trim_start_0x cs in if z == b'0' && x == b'x' then rest else z ∷ x ∷ cs
trim_start_0x cs = cs

accumulate-lt :
    (radix acc : ℕ) (cs : List ℕ) (n : ℕ)
    → acc ≤ u64_max
    → accumulate radix acc cs ≡ some n
    → n ≤ u64_max
unfolding accumulate
accumulate-lt radix acc [] n h e = ground arith
accumulate-lt radix acc (c ∷ cs) n h e = elim (Option-cases (to_digit radix c)) [
  | inl bad ↦ absurd (ground arith)
  | inr (d, good) ↦ ground (arith, accumulate-lt radix (acc * radix + d) cs n)
]

-- A parsed number fits 64 bits.
pub from_str_radix-le :
    (radix : ℕ) (cs : List ℕ) (n : ℕ) → from_str_radix radix cs ≡ some n → n ≤ u64_max
unfolding from_str_radix
from_str_radix-le radix [] n e = ground arith
from_str_radix-le radix (c ∷ []) n e = elim (Bool-cases (c == b'+')) [
  | inl sign ↦ ground arith
  | inr other ↦ accumulate-lt radix 0 (c ∷ []) n (omega arith) (rw other at e)
]
from_str_radix-le radix (c ∷ d ∷ cs) n e =
    accumulate-lt radix 0 (if c == b'+' then d ∷ cs else c ∷ d ∷ cs) n (omega arith) e
