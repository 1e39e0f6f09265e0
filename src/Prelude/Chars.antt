-- ===== src/Prelude/Chars.antt =====
-- Functions of Rust's `str` over the characters of a text.
use Prim.Native.Nat.{ℕ, zero, suc}
use Prim.Native.Char.{Char, code}
use Prim.Native.String.{String, [], ◌∷◌}
use mathlib.Core.Bool.{Bool, true, false, ◌&&◌, ◌||◌}
use mathlib.Core.Option.{Option, none, some}
use openzeppelin_monitor.Prelude.Tests.{◌==◌, leb, str_eq, if◌then◌else◌}

-- `str.chars().all`.
abbrev pub all_chars : (Char → Bool) → String → Bool
all_chars p [] = true
all_chars p (c ∷ s) = p c && all_chars p s

-- `str.chars().skip`.
abbrev pub skip : ℕ → String → String
skip zero s = s
skip (suc n) [] = []
skip (suc n) (c ∷ s) = skip n s

abbrev pub is_empty_str : String → Bool
is_empty_str [] = true
is_empty_str (c ∷ s) = false

-- `str.chars().count()`.
abbrev pub count_chars : String → ℕ
count_chars [] = 0
count_chars (c ∷ s) = suc (count_chars s)

abbrev pub is_char : ℕ → Char → Bool
is_char n c = code c == n

abbrev pub is_ascii_hexdigit : Char → Bool
is_ascii_hexdigit c =
    leb b'0' (code c) && leb (code c) b'9'
    || leb b'a' (code c) && leb (code c) b'f'
    || leb b'A' (code c) && leb (code c) b'F'

abbrev pub ends_with : String → String → Bool
ends_with [] suffix = str_eq [] suffix
ends_with (c ∷ s) suffix = str_eq (c ∷ s) suffix || ends_with s suffix

-- `str.replace(p, "")` for a test on characters.
unfoldable pub remove_chars : (Char → Bool) → String → String
remove_chars p [] = []
remove_chars p (c ∷ s) = let rest = remove_chars p s in if p c then rest else c ∷ rest

-- `str.strip_prefix` for a prefix of two characters.
abbrev pub strip_prefix2 : ℕ → ℕ → String → Option String
strip_prefix2 a b (c ∷ d ∷ s) = if is_char a c && is_char b d then some s else none
strip_prefix2 a b _ = none

-- The text without its first and its last character: `&s[1..s.len() - 1]` between brackets.
abbrev pub drop_last : String → String
drop_last [] = []
drop_last (c ∷ []) = []
drop_last (c ∷ d ∷ s) = c ∷ drop_last (d ∷ s)

abbrev pub between : String → String
between s = drop_last (skip 1 s)

abbrev next_index : Option ℕ → Option ℕ
next_index none = none
next_index (some n) = some (suc n)

-- `str.find` and `str.rfind` of a character, as positions in characters.
abbrev pub first_index : (Char → Bool) → String → Option ℕ
first_index p [] = none
first_index p (c ∷ s) = let rest = first_index p s in if p c then some 0 else next_index rest

abbrev pub last_index : (Char → Bool) → String → Option ℕ
last_index p [] = none
last_index p (c ∷ s) = elim (last_index p s) [
  | some n ↦ some (suc n)
  | none ↦ if p c then some 0 else none
]
