-- ===== src/Vmmap/Clone.antt =====
-- vmmap_clone of Homework/Kernel/vm/vmmap.c.
use csci.Prelude.Outcome.{done}
use csci.Vmmap.Sorted.{Chain}
use csci.Vmmap.Effects.{vmmap_create, clone_loop, vmmap_clone}
use csci.Prelude.{Option, none, ap, ◌∙◌, ◌++◌, refl, arith, [], map, ◌∷◌, some, ℕ, ◌≡◌, List}
use csci.Vmmap.{UserSpace, Vmarea, clone_area, World, vmmap_lookup}
use mathlib.Core.Option
use mathlib.Core.List.{append_assoc, append-nil}

module _ {W : Type 0} (k : World W) (alloc : W → W)
    (room : (w : W) → k.slab_alloc w ≡ some (alloc w)) where
  after_allocs : List Vmarea → W → W
  after_allocs [] w = w
  after_allocs (v ∷ vs) w = after_allocs vs (alloc w)

  clone_loop-map :
      (newmap vs : List Vmarea) (w : W)
      → clone_loop k newmap vs w ≡ done (newmap ++ map clone_area vs, after_allocs vs w)
  unfolding clone_loop after_allocs
  clone_loop-map newmap [] w = rw append-nil
  clone_loop-map newmap (v ∷ vs) w =
      rw (room w, clone_loop)
        (clone_loop-map (newmap ++ clone_area v ∷ []) vs (alloc w)
          ∙ ap (λ xs. done (xs, after_allocs vs (alloc w))) (append_assoc newmap _ _))

-- A copy of an area: the same pages, offset, protection and flags, and no object yet.
pub record CopyOf (v c : Vmarea) : Type 0 where
  pub start : c.start ≡ v.start
  pub end : c.end ≡ v.end
  pub off : c.off ≡ v.off
  pub prot : c.prot ≡ v.prot
  pub flags : c.flags ≡ v.flags
  pub obj : c.obj ≡ none

-- Two lookups find no area, or an area and its copy.
abbrev pub Cloned : Option Vmarea → Option Vmarea → Type 0
Cloned none none = Unit
Cloned none (some c) = ⊥
Cloned (some v) none = ⊥
Cloned (some v) (some c) = CopyOf v c

clone_area-CopyOf : (o : Option Vmarea) → Cloned o (Option.map clone_area o)
unfolding clone_area
clone_area-CopyOf none = tt
clone_area-CopyOf (some v) = record {
  start = refl;
  end = refl;
  off = refl;
  prot = refl;
  flags = refl;
  obj = refl;
}

clone-Chain : (p q : ℕ) (vs : List Vmarea) → Chain p q vs → Chain p q (map clone_area vs)
unfolding clone_area
clone-Chain p q [] c = tt
clone-Chain p q (v ∷ vs) c = (c.0, c.1, c.2, clone-Chain v.end q vs c.3)

lookup-clone :
    (vs : List Vmarea) (vfn : ℕ)
    → vmmap_lookup (map clone_area vs) vfn ≡ Option.map clone_area (vmmap_lookup vs vfn)
unfolding vmmap_lookup clone_area
lookup-clone [] vfn = refl
lookup-clone (v ∷ vs) vfn = ground (arith, lookup-clone vs vfn)

module _ {W : Type 0} (k : World W) (alloc : W → W)
    (room : (w : W) → k.slab_alloc w ≡ some (alloc w)) where
  -- Where allocation succeeds, vmmap_clone of a sorted address space returns a sorted address
  -- space in which each page lies in a copy of the area that it lies in in the given one: the same
  -- pages, offset, protection and flags, and no object yet.
  pub vmmap_clone-copies :
      (u : UserSpace) (vs : List Vmarea) (w : W)
      → Chain u.low u.high vs
      → (newmap : List Vmarea) × (w' : W) × (vmmap_clone k vs w ≡ done (newmap, w'))
        × Chain u.low u.high newmap
        × ((vfn : ℕ) → Cloned (vmmap_lookup vs vfn) (vmmap_lookup newmap vfn))
  unfolding vmmap_clone vmmap_create
  vmmap_clone-copies u vs w c = (
    map clone_area vs,
    after_allocs k alloc room vs (alloc w),
    rw (room w) (clone_loop-map k alloc room [] vs (alloc w)),
    clone-Chain u.low u.high vs c,
    (λ vfn. rw (lookup-clone vs vfn) (clone_area-CopyOf (vmmap_lookup vs vfn))),
  )
