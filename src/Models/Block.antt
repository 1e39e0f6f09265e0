-- ===== src/Models/Block.antt =====
-- src/models/blockchain/mod.rs and the `block.rs` file of each chain: the block types, as far as
-- the block watcher reads them, and their numbers. `content` stands for the rest of a block.
use openzeppelin_monitor.Prelude.{ℕ, List, Option, none, some, String}
use openzeppelin_monitor.Models.Parse.{from_str_radix, trim_start_0x}

pub record EvmBlock : Type 0 where
  pub number : Option ℕ
  pub content : String

pub record StellarBlock : Type 0 where
  pub sequence : ℕ  -- u32
  pub content : String

-- The header keeps the number as a hexadecimal text.
pub record MidnightBlock : Type 0 where
  pub header_number : List ℕ
  pub content : String

pub record SolanaBlock : Type 0 where
  pub slot : ℕ
  pub content : String

pub data BlockType : Type 0 where
  evm : EvmBlock → BlockType
  stellar : StellarBlock → BlockType
  midnight : MidnightBlock → BlockType
  solana : SolanaBlock → BlockType

abbrev pub unwrap_or {ℓ} : {A : Type ℓ} → A → Option A → A
unwrap_or d none = d
unwrap_or d (some a) = a

unfoldable pub midnight_number : MidnightBlock → Option ℕ
midnight_number b = some (unwrap_or 0 (from_str_radix 16 (trim_start_0x b.header_number)))

unfoldable pub number : BlockType → Option ℕ
unfolding midnight_number
number (evm b) = b.number
number (stellar b) = some b.sequence
number (midnight b) = midnight_number b
number (solana b) = some b.slot

-- The result of processing a block; `M` is the type of a monitor match.
pub record ProcessedBlock (M : Type 0) : Type 0 where
  pub block_number : ℕ
  pub network_slug : String
  pub processing_results : List M
