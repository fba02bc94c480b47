-- ===== src/Vmmap/Counts.antt =====
-- Reference counts of objects under vmmap_remove.
use csci.Prelude.Words.{add32}
use csci.Prelude.Outcome.{deref, out_of_fuel, panic, wild, ◌>>=◌, Outcome, done}
use csci.Prelude.{
  zero, ◌⊎◌, refl, suc, length, false, inr, Bool-cases, inl, ◌*◌, Bool, true, ◌^◌, ◌<◌, [], arith,
  ◌∷◌, ◌++◌, ◌≤◌, none, ◌≡◌, ◌+◌, ◌-◌, ◌==◌, if◌then◌else◌, some, List, ℕ,
}
use csci.Vmmap.{move_start, upper_part, overlap, shorten, Overlap, Vmarea, World}
use csci.Vmmap.Translate.{cut, cut_all}
use csci.Vmmap.Sorted.{Chain}
use csci.Vmmap.Unmap.{cut_effect, after_cuts, Owned, vmmap_remove-unmaps}
use csci.Vmmap.Effects.{split_area, remove_loop, vmmap_remove}
use csci.Vmmap.{UserSpace}

-- A world that keeps the count of each object. `has_room` says when slab_obj_alloc gives an area.
abbrev pub Counts : Type 0
Counts = ℕ → ℕ

abbrev pub bump : ℕ → Counts → Counts
bump o w x = if x == o then w x + 1 else w x

abbrev pub drop : ℕ → Counts → Counts
drop o w x = if x == o then w x - 1 else w x

abbrev pub counting : (Counts → Bool) → World Counts
counting has_room = record {
  slab_alloc = λ w. if has_room w then some w else none;
  ref = bump;
  put = drop;
  tlb_flush_all = λ w. w;
  pt_unmap_range = λ lo hi w. w;
}

-- 1 if the area has the object `o`.
abbrev one : ℕ → Vmarea → ℕ
one o v = elim v.obj [ none ↦ 0 | some x ↦ if x == o then 1 else 0 ]

-- How many areas have the object `o`.
abbrev pub uses : ℕ → List Vmarea → ℕ
uses o [] = 0
uses o (v ∷ vs) = one o v + uses o vs

uses-append : (o : ℕ) (xs ys : List Vmarea) → uses o (xs ++ ys) ≡ uses o xs + uses o ys
uses-append o [] ys = omega arith
uses-append o (x ∷ xs) ys = omega (arith, uses-append o xs ys)

abbrev alloc : Counts → Counts
alloc w = w

-- The same with room for every area.
abbrev roomy : World Counts
roomy = counting (λ w. true)

abbrev room : (w : Counts) → roomy.slab_alloc w ≡ some (alloc w)
room w = refl

-- The count of an object, and the areas that have it, across the cut of one area.
cut_effect-uses :
    (r : Overlap) (lo hi o : ℕ) (v : Vmarea) (w : Counts)
    → overlap lo hi v ≡ r
    → one o v ≤ w o
    → cut_effect roomy alloc room lo hi v w o + one o v ≡ w o + uses o (cut lo hi v)
unfolding cut_effect cut shorten upper_part move_start
cut_effect-uses Overlap.inside lo hi o v w e h = rw (e, cut_effect, cut) (ground arith)
cut_effect-uses Overlap.over_end lo hi o v w e h = rw (e, cut_effect, cut) (ground arith)
cut_effect-uses Overlap.over_start lo hi o v w e h = rw (e, cut_effect, cut) (ground arith)
cut_effect-uses Overlap.covered lo hi o v w e h = rw (e, cut_effect, cut) (ground arith)
cut_effect-uses Overlap.apart lo hi o v w e h = rw (e, cut_effect, cut) (ground arith)

cut_effect-keeps :
    (r : Overlap) (lo hi o n : ℕ) (v : Vmarea) (w : Counts)
    → overlap lo hi v ≡ r
    → one o v + n ≤ w o
    → n ≤ cut_effect roomy alloc room lo hi v w o
unfolding cut_effect
cut_effect-keeps Overlap.inside lo hi o n v w e h = rw (e, cut_effect) (ground arith)
cut_effect-keeps Overlap.covered lo hi o n v w e h = rw (e, cut_effect) (ground arith)
cut_effect-keeps _ lo hi o n v w e h = rw (e, cut_effect) (omega arith)

after_cuts-uses :
    (lo hi o : ℕ) (vs : List Vmarea) (w : Counts)
    → uses o vs ≤ w o
    → after_cuts roomy alloc room lo hi vs w o + uses o vs ≡ w o + uses o (cut_all lo hi vs)
unfolding after_cuts cut_all
after_cuts-uses lo hi o [] w h = refl
after_cuts-uses lo hi o (v ∷ vs) w h = omega (
  arith,
  cut_effect-uses (overlap lo hi v) lo hi o v w refl (omega arith),
  after_cuts-uses lo hi o vs (cut_effect roomy alloc room lo hi v w)
      (cut_effect-keeps (overlap lo hi v) lo hi o (uses o vs) v w refl h),
  uses-append o (cut lo hi v) (cut_all lo hi vs),
)

-- An allocation failed and its result was written through, or a routine did what it does with room.
abbrev Fails : {A : Type 0} → (Counts → Bool) → Outcome A → Outcome A → Type 0
Fails has_room r r' = ((r ≡ wild) × ((w : Counts) × (has_room w ≡ false))) ⊎ (r ≡ r')

then-Fails :
    {A B : Type 0} (has_room : Counts → Bool) (o : Outcome A) (f g : A → Outcome B)
    → ((a : A) → Fails has_room (f a) (g a))
    → Fails has_room (o >>= f) (o >>= g)
then-Fails has_room (done a) f g h = h a
then-Fails has_room panic f g h = inr refl
then-Fails has_room wild f g h = inr refl
then-Fails has_room out_of_fuel f g h = inr refl

split_area-Fails :
    (has_room : Counts → Bool) (u : UserSpace) (lo hi : ℕ) (seen : List Vmarea) (v : Vmarea)
    (rest : List Vmarea) (w : Counts)
    → Fails has_room
        (split_area (counting has_room) u lo hi seen v rest w)
        (split_area roomy u lo hi seen v rest w)
unfolding split_area
split_area-Fails has_room u lo hi seen v rest w = elim (Bool-cases (has_room w)) [
  | inl yes_room ↦ inr (rw (split_area, yes_room) refl)
  | inr full ↦ inl (rw (split_area, full) refl, (w, full))
]

chain-Fails :
    {A B : Type 0} (has_room : Counts → Bool) (o o' : Outcome A) (f g : A → Outcome B)
    → Fails has_room o o'
    → ((a : A) → Fails has_room (f a) (g a))
    → Fails has_room (o >>= f) (o' >>= g)
chain-Fails has_room o o' f g (inl (e, full)) h = inl (rw (e) refl, full)
chain-Fails has_room o o' f g (inr e) h = rw (e) (then-Fails has_room o' f g h)

remove_loop-Fails :
    (has_room : Counts → Bool) (fuel : ℕ) (u : UserSpace) (lo hi : ℕ) (seen rest : List Vmarea)
    (w : Counts)
    → Fails has_room
        (remove_loop (counting has_room) fuel u lo hi seen rest w)
        (remove_loop roomy fuel u lo hi seen rest w)
unfolding remove_loop
remove_loop-Fails has_room zero u lo hi seen rest w = inr refl
remove_loop-Fails has_room (suc f) u lo hi seen [] w = inr refl
remove_loop-Fails has_room (suc f) u lo hi seen (v ∷ rest) w =
    go (overlap lo hi v) refl (remove_loop-Fails has_room f u lo hi)
  where
    go :
        (r : Overlap)
        → overlap lo hi v ≡ r
        → ((seen' rest' : List Vmarea) (w' : Counts)
            → Fails has_room
                (remove_loop (counting has_room) f u lo hi seen' rest' w')
                (remove_loop roomy f u lo hi seen' rest' w'))
        → Fails has_room
            (remove_loop (counting has_room) (suc f) u lo hi seen (v ∷ rest) w)
            (remove_loop roomy (suc f) u lo hi seen (v ∷ rest) w)
    go Overlap.inside e ih =
        rw (remove_loop, e)
          (chain-Fails has_room (split_area (counting has_room) u lo hi seen v rest w)
            (split_area roomy u lo hi seen v rest w) _ _
            (split_area-Fails has_room u lo hi seen v rest w) (λ a. ih a.0 a.1 a.2))
    go Overlap.over_end e ih = rw (remove_loop, e) (ih (seen ++ shorten lo v ∷ []) rest w)
    go Overlap.over_start e ih = rw (remove_loop, e) (ih (seen ++ move_start hi v ∷ []) rest w)
    go Overlap.covered e ih =
        rw (remove_loop, e) (then-Fails has_room (deref v.obj) _ _ (λ o. ih seen rest (drop o w)))
    go Overlap.apart e ih = rw (remove_loop, e) (ih (seen ++ v ∷ []) rest w)

vmmap_remove-Fails :
    (has_room : Counts → Bool) (u : UserSpace) (map : List Vmarea) (lopage npages : ℕ) (w : Counts)
    → Fails has_room
        (vmmap_remove (counting has_room) u map lopage npages w)
        (vmmap_remove roomy u map lopage npages w)
unfolding vmmap_remove
vmmap_remove-Fails has_room u map lopage npages w =
    chain-Fails has_room _ _ _ _
      (remove_loop-Fails has_room (2 * length map + 1) u lopage (add32 lopage npages) [] map w)
      (λ a. inr refl)

-- What vmmap_remove leaves of the counts.
pub data Counted (has_room : Counts → Bool) (map : List Vmarea) (w : Counts)
    : Outcome (List Vmarea × Counts) → Type 0 where
  no_room : (w' : Counts) → has_room w' ≡ false → Counted has_room map w wild
  counted :
      (map' : List Vmarea) (w' : Counts)
      → ((o : ℕ) → uses o map ≤ w o → w' o + uses o map ≡ w o + uses o map')
      → Counted has_room map w (done (map', w'))

-- vmmap_remove of pages of user space keeps the counts of the objects in step with the areas that have
-- them, in a sorted address space whose areas have their objects: where the count of an object is at
-- least the number of its areas, the references besides theirs are as many after the call as before. A
-- call that does not return that has written through the NULL of an allocation that failed.
pub vmmap_remove-counts :
    (has_room : Counts → Bool) (u : UserSpace) (map : List Vmarea) (lopage npages endvfn : ℕ)
    (w : Counts)
    → Chain u.low u.high map
    → Owned map
    → u.low ≤ lopage
    → lopage + npages ≡ endvfn
    → endvfn < 2 ^ 32
    → Counted has_room map w (vmmap_remove (counting has_room) u map lopage npages w)
vmmap_remove-counts has_room u map lopage npages endvfn w c own a e b =
    elim (vmmap_remove-Fails has_room u map lopage npages w) [
      | inl (fails, (w', full)) ↦ rw (fails) (Counted.no_room w' full)
      | inr same ↦
          let runs =
            (vmmap_remove-unmaps roomy alloc room u map lopage npages endvfn w c own a e b).0 in
          rw (same, runs)
            (Counted.counted (cut_all lopage endvfn map)
              (after_cuts roomy alloc room lopage endvfn map w)
              (λ o h. after_cuts-uses lopage endvfn o map w h))
    ]
