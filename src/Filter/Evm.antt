-- ===== src/Filter/Evm.antt =====
-- src/services/filter/filters/evm: the filter of EVM blocks. `Platform` holds what it calls and this
-- repository does not define: the tables of Unicode, serde_json, rust_decimal, and the parsing of the
-- 256-bit integers of alloy.
pub mod Abi
pub mod Helpers
pub mod Kinds
pub mod Tuple
pub mod Evaluator
pub mod Typing
pub mod Conditions
pub mod Calls
pub mod Events
pub mod Block
pub mod Matching
use Prim.Native.Char.{Char}
use openzeppelin_monitor.Prelude.{ℕ, Bool, Option, String}
use openzeppelin_monitor.Prelude.Int.{ℤ}
use openzeppelin_monitor.Models.NetworkConfig.{Unicode}
use openzeppelin_monitor.Filter.Expression.Json.{Serde}

-- `decimals_equal` is none if one of the texts is no decimal (`Decimal::from_str`), and else tells
-- whether the two are equal numbers. `u256_from_hex` is `U256::from_str_radix` at 16, `from_raw` reads
-- the bits of an unsigned number as a signed one. `debug_enabled` says whether the log records the
-- level `debug`, since the arguments of `tracing::debug!` are evaluated only then.
pub record Platform : Type 0 where
  pub unicode : Unicode
  pub is_whitespace : Char → Bool
  pub serde : Serde
  pub decimals_equal : String → String → Option Bool
  pub u256_from_hex : String → Option ℕ
  pub u256_from_str : String → Option ℕ
  pub i256_from_str : String → Option ℤ
  pub from_raw : ℕ → ℤ
  pub debug_enabled : Bool
