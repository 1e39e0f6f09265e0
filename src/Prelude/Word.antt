-- ===== src/Prelude/Word.antt =====
-- 64-bit and 32-bit words. The release profile of Cargo.toml turns overflow checks off, so that
-- `+` wraps around; `saturating_sub` is the subtraction of ℕ.
use Prim.Native.Nat.{ℕ, ◌%◌, ◌-◌}

abbrev pub u64 : ℕ → ℕ
u64 n = n % 18446744073709551616

abbrev pub u32 : ℕ → ℕ
u32 n = n % 4294967296

abbrev pub saturating_sub : ℕ → ℕ → ℕ
saturating_sub a b = a - b
