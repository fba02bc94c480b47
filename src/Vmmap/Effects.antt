-- ===== src/Vmmap/Effects.antt =====
-- Homework/Kernel/vm/vmmap.c: the routines that allocate areas, count references and unmap pages.
use csci.Prelude.{ℕ, zero, suc, ◌+◌, ◌*◌, true, none, some, List, [], ◌∷◌, ◌++◌, length}
use csci.Prelude.Outcome.{Outcome, done, out_of_fuel, ◌>>=◌, ◌>>◌, deref}
use csci.Prelude.Words.{add32}
use csci.Vmmap.{
  Vmarea, UserSpace, World, check_insert, clone_area, Overlap, overlap, upper_part, shorten,
  move_start, insert_at_cursor,
}

module _ {W : Type 0} (k : World W) where
  -- vmmap_create: an allocation that fails is written through.
  unfoldable pub vmmap_create : W → Outcome (List Vmarea × W)
  vmmap_create w = do w' ← deref (k.slab_alloc w); done ([], w')

  -- The loop of vmmap_clone; vmarea_alloc may give NULL, which the loop does not test.
  unfoldable pub clone_loop : List Vmarea → List Vmarea → W → Outcome (List Vmarea × W)
  clone_loop newmap [] w = done (newmap, w)
  clone_loop newmap (v ∷ vs) w = elim (k.slab_alloc w) [
    | none ↦ deref none
    | some w' ↦ clone_loop (newmap ++ clone_area v ∷ []) vs w'
  ]

  unfoldable pub vmmap_clone : List Vmarea → W → Outcome (List Vmarea × W)
  unfolding vmmap_create clone_loop
  vmmap_clone map w = do (newmap, w') ← vmmap_create w; clone_loop newmap map w'

  -- vmmap_destroy: each area is taken off its lists and its object is put.
  unfoldable pub vmmap_destroy : List Vmarea → W → Outcome W
  vmmap_destroy [] w = done w
  vmmap_destroy (v ∷ vs) w = elim v.obj [
    | none ↦ deref none
    | some o ↦ vmmap_destroy vs (k.put o w)
  ]

  -- Case 1 of vmmap_remove: the areas before and behind the cursor, and the world, after it. The area
  -- is shortened last in the code; vmmap_insert does not look at its end.
  unfoldable pub split_area :
      UserSpace
      → ℕ
      → ℕ
      → List Vmarea
      → Vmarea
      → List Vmarea
      → W
      → Outcome (List Vmarea × List Vmarea × W)
  unfolding check_insert insert_at_cursor upper_part shorten
  split_area u lopage endvfn seen v rest w = do
    w' ← deref (k.slab_alloc w)
    let newvma = upper_part endvfn v
    check_insert u newvma
    o ← deref v.obj
    let lists =
        insert_at_cursor (record newvma { attached = true }) (seen ++ shorten lopage v ∷ []) rest
    done (lists.0, lists.1, k.ref o w')

  -- The loop of vmmap_remove, with the cursor between `seen` and `rest`.
  unfoldable pub remove_loop :
      ℕ → UserSpace → ℕ → ℕ → List Vmarea → List Vmarea → W → Outcome (List Vmarea × W)
  unfolding split_area overlap move_start
  remove_loop zero u lopage endvfn seen rest w = out_of_fuel
  remove_loop (suc f) u lopage endvfn seen [] w = done (seen, w)
  remove_loop (suc f) u lopage endvfn seen (v ∷ rest) w = elim (overlap lopage endvfn v) [
    | Overlap.inside ↦ do
      (seen', rest', w') ← split_area u lopage endvfn seen v rest w
      remove_loop f u lopage endvfn seen' rest' w'
    | Overlap.over_end ↦ remove_loop f u lopage endvfn (seen ++ shorten lopage v ∷ []) rest w
    | Overlap.over_start ↦ remove_loop f u lopage endvfn (seen ++ move_start endvfn v ∷ []) rest w
    | Overlap.covered ↦ do o ← deref v.obj; remove_loop f u lopage endvfn seen rest (k.put o w)
    | Overlap.apart ↦ remove_loop f u lopage endvfn (seen ++ v ∷ []) rest w
  ]

  -- Each area is visited once; one put behind the cursor by a split may be visited too.
  unfoldable pub vmmap_remove : UserSpace → List Vmarea → ℕ → ℕ → W → Outcome (List Vmarea × W)
  unfolding remove_loop
  vmmap_remove u map lopage npages w = do
    let endvfn = add32 lopage npages
    (map', w') ← remove_loop (2 * length map + 1) u lopage endvfn [] map w
    done (map', k.pt_unmap_range lopage endvfn (k.tlb_flush_all w'))
