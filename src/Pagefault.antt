-- ===== src/Pagefault.antt =====
-- Homework/Kernel/vm/pagefault.c: handle_pagefault.
use csci.Prelude.Words.{sub32, add32}
use csci.Vmmap.{vmmap_lookup, Vmarea}
use csci.Prelude.Outcome.{panic, deref, ◌>>=◌, done, kassert, ◌>>◌, Outcome}
use csci.Paging.{Paging}
use csci.Prelude.{some, if◌then◌else◌, true, ◌&&◌, ◌||◌, none, not, Option, List, Bool, ℕ}
pub mod Served

-- The tests of the fault's cause, `cause & FAULT_WRITE` and `cause & FAULT_EXEC`.
pub record Cause : Type 0 where
  pub write : Bool
  pub exec : Bool

-- The flags of a page table or page directory entry.
pub record PageFlags : Type 0 where
  pub present : Bool
  pub user : Bool
  pub writable : Bool

-- What handle_pagefault calls, over a state `W` of the rest of the kernel: the tests of the protection
-- bits, the lookup of a page of an object (`none` where it fails, or the frame), whether the frame has
-- an address, and the page table. Frames are numbers.
pub record Frames (W : Type 0) : Type 0 where
  pub prot_read : ℕ → Bool
  pub prot_write : ℕ → Bool
  pub prot_exec : ℕ → Bool
  pub lookuppage : ℕ → ℕ → Bool → W → Option ℕ × W
  pub has_addr : ℕ → W → Bool
  pub pin : ℕ → W → W
  pub dirty : ℕ → W → W
  pub unpin : ℕ → W → W
  pub virt_to_phys : ℕ → W → ℕ
  pub pt_map : ℕ → ℕ → PageFlags → PageFlags → W → W
  pub tlb_flush : ℕ → W → W

-- How the handler ends: by do_exit(EFAULT), which does not return, or by a return.
pub data Handled (W : Type 0) : Type 0 where
  exits : W → Handled W
  returns : W → Handled W

module _ {W : Type 0} (k : Frames W) (pg : Paging) where
  -- The permission tests.
  unfoldable pub denied : Cause → Vmarea → Bool
  denied cause v =
      (not (cause.write || cause.exec) && not (k.prot_read v.prot))
      || ((cause.write && not (k.prot_write v.prot)) || (cause.exec && not (k.prot_exec v.prot)))

  -- The frame is marked dirty for a write, and the page is entered into the page table.
  unfoldable pub enter_page : ℕ → Cause → ℕ → W → Outcome (Handled W)
  enter_page vaddr cause frame w = do
    kassert (k.has_addr frame w)
    let flags : PageFlags = record { present = true; user = true; writable = cause.write }
    let w' = if cause.write then k.unpin frame (k.dirty frame (k.pin frame w)) else w
    let page = pg.page_align_down vaddr
    done (
        Handled.returns (k.tlb_flush page (k.pt_map page (k.virt_to_phys frame w') flags flags w')))

  -- pframe_lookup, which asserts that the object is not NULL, and the test of its result.
  unfoldable pub fetch_page : ℕ → Cause → ℕ → Option ℕ → W → Outcome (Handled W)
  unfolding enter_page
  fetch_page vaddr cause pagenum none w = panic
  fetch_page vaddr cause pagenum (some o) w =
      let out = k.lookuppage o pagenum cause.write w in
      elim out.0 [
        | none ↦ done (Handled.exits out.1)
        | some frame ↦ enter_page vaddr cause frame out.1
      ]

  unfoldable pub handle_pagefault : List Vmarea → ℕ → Cause → W → Outcome (Handled W)
  unfolding denied fetch_page
  handle_pagefault map vaddr cause w = elim (vmmap_lookup map (pg.addr_to_pn vaddr)) [
    | none ↦ done (Handled.exits w)
    | some v ↦
        if denied cause v
        then done (Handled.exits w)
        else fetch_page vaddr cause (add32 (sub32 (pg.addr_to_pn vaddr) v.start) v.off) v.obj w
  ]
