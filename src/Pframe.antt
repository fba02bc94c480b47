-- ===== src/Pframe.antt =====
-- Homework/Kernel/mm/pframe.c: the pin count of page frames and the two lists that they stand on.
-- Frames are numbers. The flag that pframe_is_free tests is a field, and pframe_is_pinned is the test
-- that the pin count is not 0.
use csci.Prelude.Outcome.{done, kassert, ◌>>◌, Outcome}
use csci.Sched.{update, erase}
use csci.Prelude.{◌==◌, ltb, if◌then◌else◌, ◌-◌, ◌+◌, not, [], List, ◌∷◌, Bool, ◌++◌, ℕ}
pub mod Pinned

pub record Pframes : Type 0 where
  pub is_free : ℕ → Bool
  pub pf_pincount : ℕ → ℕ
  pub alloc_list : List ℕ
  pub pinned_list : List ℕ
  pub nallocated : ℕ
  pub npinned : ℕ

-- A frame goes to the pinned list.
unfoldable pub to_pinned : ℕ → Pframes → Pframes
unfolding erase
to_pinned pf s = record s {
  alloc_list = erase pf s.alloc_list;
  pinned_list = s.pinned_list ++ pf ∷ [];
  nallocated = s.nallocated - 1;
  npinned = s.npinned + 1;
}

-- A frame goes to the list of allocated frames.
unfoldable pub to_allocated : ℕ → Pframes → Pframes
unfolding erase
to_allocated pf s = record s {
  alloc_list = s.alloc_list ++ pf ∷ [];
  pinned_list = erase pf s.pinned_list;
  nallocated = s.nallocated + 1;
  npinned = s.npinned - 1;
}

unfoldable pub pframe_pin : ℕ → Pframes → Outcome Pframes
unfolding to_pinned
pframe_pin pf s = do
  kassert (not (s.is_free pf))
  let s' = if s.pf_pincount pf == 0 then to_pinned pf s else s
  done (record s' { pf_pincount = update s.pf_pincount pf (s.pf_pincount pf + 1) })

unfoldable pub pframe_unpin : ℕ → Pframes → Outcome Pframes
unfolding to_allocated
pframe_unpin pf s = do
  kassert (not (s.is_free pf))
  kassert (ltb 0 (s.pf_pincount pf))
  let s' = record s { pf_pincount = update s.pf_pincount pf (s.pf_pincount pf - 1) }
  done (if s'.pf_pincount pf == 0 then to_allocated pf s' else s')
