-- ===== src/Prelude/Words.antt =====
-- uint32_t arithmetic, with its wrap-around.
use Prim.Native.Nat.{ℕ, ◌+◌, ◌-◌, ◌%◌, ◌^◌, ◌≤◌, ◌<◌}
use mathlib.Core.Path.{◌≡◌}
use native.Mathlib.Omega.{arith}

unfoldable pub add32 : ℕ → ℕ → ℕ
add32 a b = (a + b) % 2 ^ 32

unfoldable pub sub32 : ℕ → ℕ → ℕ
sub32 a b = (a + 2 ^ 32 - b) % 2 ^ 32

pub add32-eq-add : (a b : ℕ) → a + b < 2 ^ 32 → add32 a b ≡ a + b
unfolding add32
add32-eq-add a b h = omega arith

pub sub32-eq-sub : (a b : ℕ) → b ≤ a → a < 2 ^ 32 → sub32 a b ≡ a - b
unfolding sub32
sub32-eq-sub a b h k = omega arith

-- Unsigned negation, as in `-npages`.
unfoldable pub neg32 : ℕ → ℕ
neg32 a = (2 ^ 32 - a % 2 ^ 32) % 2 ^ 32

pub neg32-sub32 : (a b : ℕ) → a < b → b < 2 ^ 32 → neg32 (sub32 a b) ≡ b - a
unfolding neg32 sub32
neg32-sub32 a b h k = omega arith
