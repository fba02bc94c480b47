-- ===== src/Prelude/Outcome.antt =====
-- What a kernel routine does: it returns, a KASSERT stops the machine, or it goes through a pointer
-- that names no object of its type, or overflows an int (`wild`). `out_of_fuel` is the model's own: a loop had too few rounds.
use mathlib.Core.Bool.{Bool, true, false}
use mathlib.Core.Option.{Option, none, some}

pub data Outcome {ℓ} (A : Type ℓ) : Type ℓ where
  done : A → Outcome A
  panic : Outcome A
  wild : Outcome A
  out_of_fuel : Outcome A

infixl 5 ◌>>=◌ ◌>>◌
abbrev pub ◌>>=◌ {ℓ κ} : {A : Type ℓ} {B : Type κ} → Outcome A → (A → Outcome B) → Outcome B
done a >>= f = f a
panic >>= f = panic
wild >>= f = wild
out_of_fuel >>= f = out_of_fuel

abbrev pub ◌>>◌ {ℓ} : {B : Type ℓ} → Outcome (Unit {0}) → Outcome B → Outcome B
m >> k = m >>= λ _. k

-- KASSERT(b)
abbrev pub kassert : Bool → Outcome (Unit {0})
kassert true = done tt
kassert false = panic

-- The object behind a pointer, `none` for NULL.
abbrev pub deref {ℓ} : {A : Type ℓ} → Option A → Outcome A
deref none = wild
deref (some a) = done a
