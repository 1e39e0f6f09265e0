-- ===== src/Filter/Evm/Helpers.antt =====
-- src/services/filter/filters/evm/helpers.rs: the comparison of addresses and signatures and the
-- parsing of numbers. The text of a parse error is left out.
use openzeppelin_monitor.Prelude.{ℕ, Bool, Option, none, some, String, str_eq, if◌then◌else◌}
use openzeppelin_monitor.Prelude.Chars.{remove_chars, strip_prefix2, is_empty_str}
use openzeppelin_monitor.Prelude.Int.{ℤ}
use openzeppelin_monitor.Models.Block.{unwrap_or}
use openzeppelin_monitor.Filter.Evm.{Platform}

-- `strip_prefix("0x").or_else(|| strip_prefix("0X"))`.
abbrev pub strip_hex_prefix : String → Option String
strip_hex_prefix s = elim (strip_prefix2 b'0' b'x' s) [
  | none ↦ strip_prefix2 b'0' b'X' s
  | some rest ↦ some rest
]

module _ (platform : Platform) where
  unfoldable pub normalize_address : String → String
  unfolding remove_chars
  normalize_address address =
      platform.unicode.to_lowercase
        (remove_chars platform.is_whitespace (unwrap_or address (strip_prefix2 b'0' b'x' address)))

  unfoldable pub are_same_address : String → String → Bool
  unfolding normalize_address
  are_same_address address1 address2 =
      str_eq (normalize_address address1) (normalize_address address2)

  unfoldable pub normalize_signature : String → String
  unfolding remove_chars
  normalize_signature signature =
      platform.unicode.to_lowercase (remove_chars platform.is_whitespace signature)

  unfoldable pub are_same_signature : String → String → Bool
  unfolding normalize_signature
  are_same_signature signature1 signature2 =
      str_eq (normalize_signature signature1) (normalize_signature signature2)

  -- A number in decimal or, behind `0x`, in hexadecimal digits.
  abbrev parse_number : {A : Type 0} → (String → Option A) → (String → Option A) → String → Option A
  parse_number from_hex from_str value_str =
      let trimmed = platform.unicode.trim value_str in
      if is_empty_str trimmed then none else elim (strip_hex_prefix trimmed) [
        | some hex_val ↦ if is_empty_str hex_val then none else from_hex hex_val
        | none ↦ from_str trimmed
      ]

  unfoldable pub string_to_u256 : String → Option ℕ
  string_to_u256 = parse_number platform.u256_from_hex platform.u256_from_str

  abbrev map_option : {A B : Type 0} → (A → B) → Option A → Option B
  map_option f none = none
  map_option f (some a) = some (f a)

  unfoldable pub string_to_i256 : String → Option ℤ
  string_to_i256 =
      parse_number (λ hex_val. map_option platform.from_raw (platform.u256_from_hex hex_val))
        platform.i256_from_str
