-- ===== src/Tests/Vm.antt =====
-- An address space of two areas, in a user space of pages 16 to 99.
use csci.Vmmap.Clone.{Cloned, vmmap_clone-copies}
use csci.Vmmap.Insert.{is_range_empty-answers, EmptyAnswer, vmmap_insert-maps}
use csci.Prelude.Outcome.{done, wild}
use csci.Vmmap.Counts.{Counted, bump, vmmap_remove-counts, Counts, counting}
use csci.Prelude.Words.{add32, sub32}
use csci.Brk.Break.{do_brk-Moves, Moves}
use csci.Vmmap.Translate.{page_of, translate, cut_all}
use csci.Prelude.{
  Bool, inr, inl, none, ◌&&◌, ltb, leb, ◌^◌, ◌==◌, if◌then◌else◌, true, ◌%◌, ◌<◌, ◌+◌, ◌*◌, some,
  ◌∷◌, refl, ◌≡◌, [], arith, ◌/◌, List, Option, false, ℕ,
}
use csci.Brk.{do_brk, Proc}
use csci.Vmmap.Effects.{vmmap_clone, vmmap_remove}
use csci.Paging.{IsPaging, Paging}
use csci.Vmmap.{
  vmmap_is_range_empty, overlap, move_start, shorten, lohi, vmmap_insert, upper_part, hilo, Vmarea,
  insert_area, UserSpace, vmmap_lookup, vmmap_find_range,
}
use csci.Vmmap.Sorted.{IsLayout, Chain}
use csci.Vmmap.Unmap.{after_cuts, Owned, vmmap_remove-unmaps}
use csci.Vmmap.FindRange.{find_range-Best, Best}

abbrev u : UserSpace
u = record { low = 16; high = 100 }

abbrev pub area : ℕ → ℕ → ℕ → Vmarea
area start end o = record {
  start = start;
  end = end;
  off = 5;
  prot = 3;
  flags = 2;
  obj = some o;
  attached = true;
  linked = true;
}

abbrev pub areas : List Vmarea
areas = area 20 30 1 ∷ area 40 60 2 ∷ []

u-IsLayout : IsLayout u
u-IsLayout = record { low_pos = omega arith; low_lt_high = omega arith; high_lt = omega arith }

pub areas-Chain : Chain 16 100 areas
areas-Chain = omega arith

pub areas-Owned : Owned areas
areas-Owned = ((1, refl), ((2, refl), tt))

-- Removing pages 45 to 49 splits the second area and takes a reference to its object.
remove_splits :
    vmmap_remove (counting (λ w. true)) u areas 45 5 (λ _. 1)
    ≡ done (
      area 20 30 1 ∷ area 40 45 2 ∷ record (area 50 60 2) { off = 15; linked = false } ∷ [],
      bump 2 (λ _. 1),
    )
unfolding vmmap_remove insert_area upper_part shorten move_start overlap add32 sub32
remove_splits = refl

find_high : vmmap_find_range u areas 7 hilo ≡ done (some 93)
unfolding vmmap_find_range sub32
find_high = refl

find_low : vmmap_find_range u areas 7 lohi ≡ done (some 30)
unfolding vmmap_find_range sub32
find_low = refl

find_range_empty_map : vmmap_find_range u [] 7 hilo ≡ wild
unfolding vmmap_find_range
find_range_empty_map = refl

vmmap_remove-unmaps_example :
    let map' = cut_all 25 50 areas in
    (vmmap_remove (counting (λ w. true)) u areas 25 25 (λ _. 1)
      ≡ done (map', after_cuts (counting (λ w. true)) (λ w. w) (λ w. refl) 25 50 areas (λ _. 1)))
    × Chain 16 100 map'
    × ((vfn : ℕ)
        → vfn < 2 ^ 32
        → translate map' vfn ≡ (if leb 25 vfn && ltb vfn 50 then none else translate areas vfn))
vmmap_remove-unmaps_example =
    vmmap_remove-unmaps (counting (λ w. true)) (λ w. w) (λ w. refl) u areas 25 25 50 (λ _. 1)
      areas-Chain areas-Owned (omega arith) refl (omega arith)

find_range-Best_example :
    (r : Option ℕ) × (vmmap_find_range u areas 7 hilo ≡ done r) × Best u 7 areas hilo r
find_range-Best_example =
    find_range-Best u 7 (area 20 30 1) (area 40 60 2 ∷ []) hilo u-IsLayout (omega arith) areas-Chain

vmmap_remove-counts_example :
    Counted
      (λ w. ltb (w 1) 5)
      areas
      (λ _. 3)
      (vmmap_remove (counting (λ w. ltb (w 1) 5)) u areas 45 5 (λ _. 3))
vmmap_remove-counts_example =
    vmmap_remove-counts (λ w. ltb (w 1) 5) u areas 45 5 50 (λ _. 3) areas-Chain areas-Owned
      (omega arith) refl (omega arith)

vmmap_insert-maps_example :
    let new = record (area 30 40 3) { attached = false } in
    (map' : List Vmarea) × (vmmap_insert u new areas ≡ done map')
    × Chain 16 100 map'
    × ((vfn : ℕ)
        → translate map' vfn
          ≡ (if ltb vfn 40 && leb 30 vfn then some (page_of new vfn) else translate areas vfn))
vmmap_insert-maps_example =
    vmmap_insert-maps u (record (area 30 40 3) { attached = false }) areas areas-Chain refl
      (omega arith) (omega arith) (omega arith) (inl (omega arith), (inr (omega arith), tt))

is_range_empty-answers_example :
    (b : Bool) × (vmmap_is_range_empty u areas 58 10 ≡ done b) × EmptyAnswer areas 58 68 b
is_range_empty-answers_example =
    is_range_empty-answers u areas 58 10 68 u-IsLayout areas-Chain (omega arith) (omega arith) refl
      (omega arith)

vmmap_clone-copies_example :
    (newmap : List Vmarea) × (w' : Counts) × (vmmap_clone (counting (λ w. true)) areas (λ _. 1)
      ≡ done (newmap, w'))
    × Chain 16 100 newmap
    × ((vfn : ℕ) → Cloned (vmmap_lookup areas vfn) (vmmap_lookup newmap vfn))
vmmap_clone-copies_example =
    vmmap_clone-copies (counting (λ w. true)) (λ w. w) (λ w. refl) u areas (λ _. 1) areas-Chain

abbrev pub paging : Paging
paging = record {
  page_size = 4096;
  addr_to_pn = λ a. a / 4096;
  pn_to_addr = λ n. n * 4096;
  page_align_up = λ a. (a + 4095) / 4096 * 4096;
  page_align_down = λ a. a / 4096 * 4096;
  page_aligned = λ a. a % 4096 == 0;
  mem_low = 16 * 4096;
  mem_high = 100 * 4096;
}

pub paging-IsPaging : IsPaging paging
paging-IsPaging = record {
  size = refl;
  to_pn = λ a. refl;
  to_addr = λ n. refl;
  align_up = λ a. refl;
  align_down = λ a. refl;
  aligned = λ a. refl;
  low_aligned = refl;
  high_aligned = refl;
  low_pos = omega arith;
  low_lt_high = omega arith;
  high_lt = omega arith;
}

abbrev proc : Proc
proc = record { p_brk = 85000; p_start_brk = 85000; p_vmmap = areas }

do_brk-Moves_example :
    Moves {W = Counts} paging
      (area 20 30 1)
      130000
      proc
      (λ _. 1)
      (do_brk (counting (λ w. true)) paging 130000 proc (λ _. 1))
unfolding vmmap_lookup
do_brk-Moves_example =
    do_brk-Moves (counting (λ w. true)) (λ w. w) (λ w. refl) paging paging-IsPaging 130000
      (area 20 30 1) proc (λ _. 1) areas-Chain areas-Owned (omega arith) (omega arith) (omega arith)
      refl (λ e. absurd (omega arith))
