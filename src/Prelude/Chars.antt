-- ===== src/Prelude/Chars.antt =====
-- Texts and their characters.
use csci.Prelude.Tests.{leb}
use Prim.Native.Nat.{ℕ}
use mathlib.Core.List.{List}
use mathlib.Core.Bool.{Bool, ◌&&◌}

-- A string is the list of its characters, without the final 0.
abbrev pub Text : Type 0
Text = List ℕ

-- isdigit
abbrev pub is_digit : ℕ → Bool
is_digit c = leb b'0' c && leb c b'9'
