-- ===== src/Brk.antt =====
-- Homework/Kernel/vm/brk.c: do_brk.
pub mod Break
use csci.Vmmap.Effects.{vmmap_remove}
use csci.Prelude.Words.{neg32, sub32}
use csci.Prelude.Outcome.{◌>>◌, deref, done, Outcome}
use csci.Prelude.{◌||◌, [], leb, ◌&&◌, ltb, ◌==◌, ◌∷◌, if◌then◌else◌, List, ℕ}
use csci.Paging.{enomem, err, ok, user_space, Reply, Paging}
use csci.Prelude.Outcome.{◌>>=◌}
use csci.Vmmap.{vmmap_is_range_empty, vmmap_lookup, Vmarea, World, UserSpace}

-- The fields of the current process that do_brk reads and writes.
pub record Proc : Type 0 where
  pub p_brk : ℕ
  pub p_start_brk : ℕ
  pub p_vmmap : List Vmarea

-- `vma->vma_end = end` for the area that vmmap_lookup finds for `vfn`.
unfoldable pub set_end : ℕ → ℕ → List Vmarea → List Vmarea
set_end vfn end [] = []
set_end vfn end (v ∷ vs) =
    if ltb vfn v.end && leb v.start vfn then record v { end = end } ∷ vs else v ∷ set_end vfn end vs

module _ {W : Type 0} (k : World W) (pg : Paging) where
  -- case1 and case2 of do_brk.
  unfoldable pub shrink_break : ℕ → ℕ → ℕ → Proc → W → Outcome (Reply ℕ × Proc × W)
  shrink_break addr new_endvfn npages p w = do
    (map', w') ← vmmap_remove k (user_space pg) p.p_vmmap new_endvfn (neg32 npages) w
    done (ok addr, record p { p_brk = addr; p_vmmap = map' }, w')

  unfoldable pub grow_break : ℕ → ℕ → ℕ → ℕ → Proc → W → Outcome (Reply ℕ × Proc × W)
  unfolding set_end
  grow_break addr prev_endvfn new_endvfn npages p w = do
    empty ← vmmap_is_range_empty (user_space pg) p.p_vmmap prev_endvfn npages
    let grown = set_end (pg.addr_to_pn p.p_start_brk) new_endvfn p.p_vmmap
    let moved = record p { p_brk = addr; p_vmmap = grown }
    if empty then done (ok addr, moved, w) else done (err enomem, p, w)

  -- The case of an address that is not NULL and is in range. NULL is 0.
  unfoldable pub move_break : ℕ → Proc → W → Outcome (Reply ℕ × Proc × W)
  unfolding shrink_break grow_break
  move_break addr p w = do
    vma ← deref (vmmap_lookup p.p_vmmap (pg.addr_to_pn p.p_start_brk))
    let prev_endvfn = vma.end
    let new_endvfn = pg.addr_to_pn (pg.page_align_up addr)
    let npages = sub32 new_endvfn prev_endvfn
    let unmoved = done (ok addr, record p { p_brk = addr }, w)
    let grown = grow_break addr prev_endvfn new_endvfn npages p w
    if ltb new_endvfn prev_endvfn
        then shrink_break addr new_endvfn npages p w
        else if ltb prev_endvfn new_endvfn
        then grown
        else unmoved

  unfoldable pub do_brk : ℕ → Proc → W → Outcome (Reply ℕ × Proc × W)
  unfolding move_break
  do_brk addr p w =
      if addr == 0
      then done (ok p.p_brk, p, w)
      else if ltb addr p.p_start_brk || ltb pg.mem_high addr
      then done (err enomem, p, w)
      else move_break addr p w
