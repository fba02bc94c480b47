-- ===== src/Prelude/Int.antt =====
-- Whole numbers over the native ones, under the library's names.
use Prim.Native.Nat.{ℕ, zero, suc, ◌+◌, ◌-◌}
use mathlib.Core.Bool.{Bool, true, false}
use csci.Prelude.Tests.{ltb, if◌then◌else◌}

pub data ℤ : Type 0 where
  pos : ℕ → ℤ
  negsuc : ℕ → ℤ

-- The absolute value, and the number with the other sign.
abbrev pub abs : ℤ → ℕ
abs (ℤ.pos n) = n
abs (ℤ.negsuc n) = suc n

abbrev pub neg : ℕ → ℤ
neg zero = ℤ.pos 0
neg (suc n) = ℤ.negsuc n

abbrev pub is_negative : ℤ → Bool
is_negative (ℤ.pos n) = false
is_negative (ℤ.negsuc n) = true

abbrev pub plus : ℤ → ℤ → ℤ
plus (ℤ.pos m) (ℤ.pos n) = ℤ.pos (m + n)
plus (ℤ.negsuc m) (ℤ.negsuc n) = ℤ.negsuc (suc (m + n))
plus (ℤ.pos m) (ℤ.negsuc n) = if ltb n m then ℤ.pos (m - suc n) else neg (suc n - m)
plus (ℤ.negsuc m) (ℤ.pos n) = if ltb m n then ℤ.pos (n - suc m) else neg (suc m - n)
