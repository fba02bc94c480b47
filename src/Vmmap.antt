-- ===== src/Vmmap.antt =====
-- Homework/Kernel/vm/vmmap.c: the address space of a process as the list of its areas, in list
-- order. util/list.h, the slab allocator, the mmobj operations of an object and the MMU calls are
-- not in the repository: an intrusive list is a `List`, and the calls are the fields of `World`.
pub mod Counts
pub mod Clone
pub mod Effects
pub mod FindRange
pub mod Gaps
pub mod Insert
pub mod Sorted
pub mod Translate
pub mod Unmap
use mathlib.Core.List.{head?}
use csci.Prelude.{
  get_last?, ℕ, Bool, true, false, not, ◌&&◌, Option, none, some, List, [], ◌∷◌, ◌++◌, reverse, ltb,
  leb, if◌then◌else◌,
}
use csci.Prelude.Outcome.{Outcome, done, ◌>>=◌, ◌>>◌, kassert, deref}
use csci.Prelude.Words.{add32, sub32}

-- struct vmarea. `obj` is NULL or names an mmobj; `attached` says that vma_vmmap is not NULL;
-- `linked` says that vma_olink is on the list of areas of the object.
pub record Vmarea : Type 0 where
  pub start : ℕ
  pub end : ℕ
  pub off : ℕ
  pub prot : ℕ
  pub flags : ℕ
  pub obj : Option ℕ
  pub attached : Bool
  pub linked : Bool

-- ADDR_TO_PN(USER_MEM_LOW) and ADDR_TO_PN(USER_MEM_HIGH).
pub record UserSpace : Type 0 where
  pub low : ℕ
  pub high : ℕ

-- What vmmap.c calls and the repository does not hold, over a state `W` of the rest of the kernel.
-- `slab_alloc` gives `none` where slab_obj_alloc returns NULL.
pub record World (W : Type 0) : Type 0 where
  pub slab_alloc : W → Option W
  pub ref : ℕ → W → W
  pub put : ℕ → W → W
  pub tlb_flush_all : W → W
  pub pt_unmap_range : ℕ → ℕ → W → W

-- The loop of vmmap_insert.
unfoldable pub insert_area : Vmarea → List Vmarea → List Vmarea
insert_area new [] = new ∷ []
insert_area new (v ∷ vs) = if leb new.end v.start then new ∷ v ∷ vs else v ∷ insert_area new vs

-- The assertions of vmmap_insert.
unfoldable pub check_insert : UserSpace → Vmarea → Outcome (Unit {0})
check_insert u new = do
  kassert (not new.attached)
  kassert (ltb new.start new.end)
  kassert (leb u.low new.start && leb new.end u.high)

unfoldable pub vmmap_insert : UserSpace → Vmarea → List Vmarea → Outcome (List Vmarea)
unfolding check_insert insert_area
vmmap_insert u new map =
    check_insert u new >> done (insert_area (record new { attached = true }) map)

unfoldable pub vmmap_lookup : List Vmarea → ℕ → Option Vmarea
vmmap_lookup [] vfn = none
vmmap_lookup (v ∷ vs) vfn = if ltb vfn v.end && leb v.start vfn then some v else vmmap_lookup vs vfn

pub data Dir : Type 0 where
  hilo lohi : Dir

-- The loop of vmmap_find_range for VMMAP_DIR_HILO, over the list from its tail.
unfoldable pub scan_down : ℕ → ℕ → List Vmarea → Option ℕ
scan_down npages pre_start [] = none
scan_down npages pre_start (v ∷ vs) =
    if leb npages (sub32 pre_start v.end)
    then some (sub32 pre_start npages)
    else scan_down npages v.start vs

-- The loop of vmmap_find_range for VMMAP_DIR_LOHI.
unfoldable pub scan_up : ℕ → ℕ → List Vmarea → Option ℕ
scan_up npages pre_end [] = none
scan_up npages pre_end (v ∷ vs) =
    if ltb 0 pre_end && leb npages (sub32 v.start pre_end)
    then some pre_end
    else scan_up npages v.end vs

-- The area before the list head, and the one after its tail. On an empty list `list_head` and
-- `list_tail` give a pointer to no area.
unfoldable pub below_head : UserSpace → ℕ → List Vmarea → Outcome (Option ℕ)
below_head u npages map = do
  head ← deref (head? map)
  done (if leb npages (sub32 head.start u.low) then some (sub32 head.start npages) else none)

unfoldable pub above_tail : UserSpace → ℕ → List Vmarea → Outcome (Option ℕ)
above_tail u npages map = do
  tail ← deref (get_last? map)
  done (if leb npages (sub32 u.high tail.end) then some tail.end else none)

-- `none` is the return value -1.
unfoldable pub vmmap_find_range : UserSpace → List Vmarea → ℕ → Dir → Outcome (Option ℕ)
unfolding scan_down scan_up below_head above_tail
vmmap_find_range u map npages Dir.hilo = elim (scan_down npages u.high (reverse map)) [
  | some vfn ↦ done (some vfn)
  | none ↦ below_head u npages map
]
vmmap_find_range u map npages Dir.lohi = elim (scan_up npages u.low map) [
  | some vfn ↦ done (some vfn)
  | none ↦ above_tail u npages map
]

-- The loop of vmmap_is_range_empty.
unfoldable pub scan_empty : ℕ → ℕ → List Vmarea → Bool
scan_empty startvfn endvfn [] = true
scan_empty startvfn endvfn (v ∷ vs) =
    if leb endvfn v.start
    then true
    else if ltb v.start endvfn && ltb startvfn v.end
    then false
    else scan_empty startvfn endvfn vs

unfoldable pub vmmap_is_range_empty : UserSpace → List Vmarea → ℕ → ℕ → Outcome Bool
unfolding scan_empty
vmmap_is_range_empty u map startvfn npages = do
  let endvfn = add32 startvfn npages
  kassert (ltb startvfn endvfn && (leb u.low startvfn && leb endvfn u.high))
  done (scan_empty startvfn endvfn map)

-- The area that vmmap_clone makes of `v`.
unfoldable pub clone_area : Vmarea → Vmarea
clone_area v = record {
  start = v.start;
  end = v.end;
  off = v.off;
  prot = v.prot;
  flags = v.flags;
  obj = none;
  attached = true;
  linked = false;
}

-- The cases of vmmap_remove, tested in the order of the code.
pub data Overlap : Type 0 where
  inside over_end over_start covered apart : Overlap

unfoldable pub overlap : ℕ → ℕ → Vmarea → Overlap
overlap lopage endvfn v =
    if ltb endvfn v.end && ltb v.start lopage
    then Overlap.inside
    else if leb v.end endvfn && (ltb v.start lopage && ltb lopage v.end)
    then Overlap.over_end
    else if ltb endvfn v.end && (leb lopage v.start && ltb v.start endvfn)
    then Overlap.over_start
    else if leb v.end endvfn && leb lopage v.start
    then Overlap.covered
    else Overlap.apart

-- Case 1: the new area above the hole. It is not put on the list of areas of its object.
unfoldable pub upper_part : ℕ → Vmarea → Vmarea
upper_part endvfn v = record {
  start = endvfn;
  end = v.end;
  off = sub32 (add32 v.off endvfn) v.start;
  prot = v.prot;
  flags = v.flags;
  obj = v.obj;
  attached = false;
  linked = false;
}

-- Cases 1 and 2.
unfoldable pub shorten : ℕ → Vmarea → Vmarea
shorten lopage v = record v { end = lopage }

-- Case 3.
unfoldable pub move_start : ℕ → Vmarea → Vmarea
move_start endvfn v = record v { off = add32 v.off (sub32 endvfn v.start); start = endvfn }

-- Where vmmap_insert puts `new`, if it finds a place among these areas.
unfoldable pub has_place : Vmarea → List Vmarea → Bool
has_place new [] = false
has_place new (v ∷ vs) = if leb new.end v.start then true else has_place new vs

-- vmmap_insert in the middle of an iteration. The cursor stands between `seen` and `rest`, and the
-- macro has taken the next link already: an area that is put right behind the cursor is not visited.
unfoldable pub insert_at_cursor : Vmarea → List Vmarea → List Vmarea → List Vmarea × List Vmarea
unfolding has_place insert_area
insert_at_cursor new seen [] =
    if has_place new seen then (insert_area new seen, []) else (seen ++ new ∷ [], [])
insert_at_cursor new seen (v ∷ vs) =
    if has_place new seen
    then (insert_area new seen, v ∷ vs)
    else if leb new.end v.start
    then (seen ++ new ∷ [], v ∷ vs)
    else (seen, insert_area new (v ∷ vs))
