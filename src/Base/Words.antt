-- ===== src/Base/Words.antt =====
-- Unsigned machine words as native numbers: `uint32_t` and `uint64_t` with their wrap-around.
use Prim.Native.Nat.{ℕ, ◌+◌, ◌-◌, ◌%◌, ◌^◌, ◌≤◌, ◌<◌}
use mathlib.Core.Path.{◌≡◌}
use native.Mathlib.Omega.{arith}

abbrev pub u32_mod : ℕ
u32_mod = 2 ^ 32

abbrev pub u64_mod : ℕ
u64_mod = 2 ^ 64

unfoldable pub add32 : ℕ → ℕ → ℕ
add32 a b = (a + b) % u32_mod

unfoldable pub sub32 : ℕ → ℕ → ℕ
sub32 a b = (a + u32_mod - b) % u32_mod

pub add32-lt : (a b : ℕ) → add32 a b < u32_mod
unfolding add32
add32-lt a b = omega arith

pub sub32-lt : (a b : ℕ) → sub32 a b < u32_mod
unfolding sub32
sub32-lt a b = omega arith

-- Where the difference is not negative, the wrapping subtraction is the plain one.
pub sub32-eq-sub : (a b : ℕ) → b ≤ a → a < u32_mod → sub32 a b ≡ a - b
unfolding sub32
sub32-eq-sub a b h lt = omega arith

pub add32-eq-add : (a b : ℕ) → a + b < u32_mod → add32 a b ≡ a + b
unfolding add32
add32-eq-add a b h = omega arith
