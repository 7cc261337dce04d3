-- ===== src/Common/Words.antt =====
-- Unsigned machine words. A value is a plain number; an addition wraps at the width.
use Prim.Native.Nat.{ℕ, ◌+◌, ◌%◌, ◌<◌}
use mathlib.Core.Path.{◌≡◌}
use native.Mathlib.Omega.{arith}

-- 2 ^ 32 and 2 ^ 64
abbrev pub u32_mod : ℕ
u32_mod = 4294967296

abbrev pub u64_mod : ℕ
u64_mod = 18446744073709551616

abbrev pub add32 : ℕ → ℕ → ℕ
add32 a b = (a + b) % u32_mod

abbrev pub add64 : ℕ → ℕ → ℕ
add64 a b = (a + b) % u64_mod

pub add64-exact : (a b : ℕ) → a + b < u64_mod → add64 a b ≡ a + b
add64-exact a b h = omega arith
