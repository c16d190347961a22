-- ===== src/Common/Words.antt =====
-- Machine integers of the source: u32, u64 and usize kept as native numbers, with the wrap-around
-- of the release profile written out.
use Prim.Native.Nat.{ℕ, ◌+◌, ◌%◌, ◌<◌}
use mathlib.Core.Path.{◌≡◌}
use native.Mathlib.Omega.{arith}

abbrev pub u32_mod : ℕ
u32_mod = 4294967296

abbrev pub u64_mod : ℕ
u64_mod = 18446744073709551616

-- `a + b` at type u32 and at type u64, in the release profile (no overflow checks).
abbrev pub add_u32 : ℕ → ℕ → ℕ
add_u32 a b = (a + b) % u32_mod

abbrev pub add_u64 : ℕ → ℕ → ℕ
add_u64 a b = (a + b) % u64_mod

pub add_u32-exact : (a b : ℕ) → a + b < u32_mod → add_u32 a b ≡ a + b
add_u32-exact a b h = omega arith

-- Signed numbers, as the error codes of the protocol use them: `negsuc n` is -(n + 1).
pub data ℤ : Type 0 where
  pos : ℕ → ℤ
  negsuc : ℕ → ℤ
