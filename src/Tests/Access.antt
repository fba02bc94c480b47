-- ===== src/Tests/Access.antt =====
-- Ranges of addresses and page faults in the address space of Tests/Vm.
use csci.Vmmap.Translate.{translate}
use csci.Pagefault.Served.{handle_pagefault-Served, Served}
use csci.Pagefault.{Handled, Frames, handle_pagefault}
use csci.Mmap.Munmap.{do_munmap-Unmapped, Unmapped}
use csci.Access.Range.{range_perm-RangeAnswer, RangeAnswer}
use csci.Vmmap.Counts.{counting, Counts}
use csci.Prelude.Outcome.{done}
use csci.Prelude.Words.{sub32, add32}
use csci.Vmmap.{Vmarea, vmmap_lookup}
use csci.Prelude.{
  Bool, Bool, Bool, Bool, Bool, Bool, Bool, Bool, Bool, Bool, Bool, Bool, Bool, Bool, Bool, Bool,
  Bool, Bool, Bool, Bool, ◌/◌, Bool, ◌+◌, ◌*◌, some, ◌==◌, ◌∷◌, ◌%◌, [], ℕ, arith, refl, true,
  false, ◌≡◌, List,
}
use csci.Access.{addr_perm, range_perm}
use csci.Mmap.{do_munmap, refuses_munmap}
use csci.Paging.{Reply}
use csci.Tests.Vm.{paging, areas, paging-IsPaging, areas-Chain, areas-Owned}

range_perm-RangeAnswer_example :
    (b : Bool) × (range_perm paging areas 81920 9000 ≡ done b) × RangeAnswer areas 81920 9000 b
range_perm-RangeAnswer_example =
    range_perm-RangeAnswer paging areas 81920 9000 paging-IsPaging refl (omega arith)

-- A range of two bytes over the end of the first area: the second byte is not mapped, and not tested.
range_perm_misses : range_perm paging areas 122879 2 ≡ done true
unfolding range_perm add32 vmmap_lookup
range_perm_misses = refl

last_byte_not_mapped : addr_perm paging areas 122880 ≡ false
unfolding addr_perm vmmap_lookup
last_byte_not_mapped = refl

do_munmap-Unmapped_example :
    (r : Reply (Unit {0})) × (map' : List Vmarea) × (w' : Counts) × (do_munmap
        (counting (λ w. true))
        paging
        184320
        5000
        areas
        (λ _. 1)
      ≡ done (r, map', w'))
    × Unmapped paging 184320 5000 areas (λ _. 1) r map' w'
do_munmap-Unmapped_example =
    do_munmap-Unmapped (counting (λ w. true)) (λ w. w) (λ w. refl) paging paging-IsPaging 184320
      5000 areas (λ _. 1) areas-Chain areas-Owned (omega arith) (omega arith)

-- A range that passes the end of the 32-bit address space is not refused where its last address wraps
-- into user space.
munmap_wraps :
    refuses_munmap (record paging { mem_high = 3221225472 }) 2952790016 1610612736 ≡ false
unfolding refuses_munmap add32
munmap_wraps = refl

-- Bits 1, 2 and 4 of a protection are reading, writing and executing; page `n` of object `o` is in frame
-- 100 * o + n. The state is the list of the pages and frames that are in the page table.
abbrev frames : Frames (List (ℕ × ℕ))
frames = record {
  prot_read = λ p. p % 2 == 1;
  prot_write = λ p. p / 2 % 2 == 1;
  prot_exec = λ p. p / 4 % 2 == 1;
  lookuppage = λ o n write w. (some (100 * o + n), w);
  has_addr = λ f w. true;
  pin = λ f w. w;
  dirty = λ f w. w;
  unpin = λ f w. w;
  virt_to_phys = λ f w. f;
  pt_map = λ page f pd pt w. (page, f) ∷ w;
  tlb_flush = λ page w. w;
}

-- A write to the second area, whose protection is reading and writing.
write_fault :
    handle_pagefault frames paging areas 184321 (record { write = true; exec = false }) []
    ≡ done (Handled.returns ((184320, 210) ∷ []))
unfolding handle_pagefault vmmap_lookup add32 sub32
write_fault = refl

handle_pagefault-Served_example :
    Served frames paging 184321
      (record { write = true; exec = false })
      []
      (translate areas (paging.addr_to_pn 184321))
      (handle_pagefault frames paging areas 184321 (record { write = true; exec = false }) [])
handle_pagefault-Served_example =
    handle_pagefault-Served frames paging areas 184321 (record { write = true; exec = false }) []
      paging-IsPaging (omega arith)
