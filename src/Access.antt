-- ===== src/Access.antt =====
-- Homework/Kernel/api/access.c: which addresses of a process the kernel may touch.
use csci.Prelude.Words.{add32}
use csci.Prelude.Outcome.{done, out_of_fuel, Outcome}
use csci.Vmmap.{vmmap_lookup, Vmarea}
use csci.Paging.{Paging}
use csci.Prelude.{zero, ltb, true, some, if◌then◌else◌, false, none, ◌+◌, suc, ◌/◌, Bool, List, ℕ}
pub mod Range

-- `perm` is only read in code that is commented out, and is left out here: addr_perm tests whether an
-- area holds the page.
unfoldable pub addr_perm : Paging → List Vmarea → ℕ → Bool
addr_perm pg map vaddr = elim (vmmap_lookup map (pg.addr_to_pn vaddr)) [
  | none ↦ false
  | some v ↦ true
]

-- The loop of range_perm, from `offset`.
unfoldable pub perm_loop : ℕ → Paging → List Vmarea → ℕ → ℕ → ℕ → Outcome Bool
unfolding addr_perm
perm_loop zero pg map avaddr len offset = out_of_fuel
perm_loop (suc f) pg map avaddr len offset =
    let rest = perm_loop f pg map avaddr len (add32 offset pg.page_size) in
    if ltb offset len
    then (if addr_perm pg map (add32 avaddr offset) then rest else done false)
    else done true

-- One round for each started page, and the test that ends the loop.
unfoldable pub range_perm : Paging → List Vmarea → ℕ → ℕ → Outcome Bool
unfolding perm_loop
range_perm pg map avaddr len = perm_loop (len / 4096 + 2) pg map avaddr len 0
