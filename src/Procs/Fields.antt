-- ===== src/Procs/Fields.antt =====
-- What an update of one process leaves as it is.
use csci.Prelude.{refl, inr, ==_iff, inl, ◌==◌, Bool-cases, ◌≡◌, ℕ}
use csci.Procs.{Proc}
use csci.Sched.{update}

pub update-field {ℓ} :
    {A : Type ℓ} (g : Proc → A) (f : ℕ → Proc) (c q : ℕ) (n : Proc)
    → g n ≡ g (f c)
    → g (update f c n q) ≡ g (f q)
update-field g f c q n e = elim (Bool-cases (q == c)) [
  | inl h ↦ let same : q ≡ c = (==_iff q c).0 h in rw (h, same) e
  | inr h ↦ rw h refl
]
