-- ===== src/Vmmap/Unmap.antt =====
-- vmmap_remove of Homework/Kernel/vm/vmmap.c against the view of Translate.
use csci.Prelude.Outcome.{done}
use csci.Vmmap.Sorted.{Chain}
use csci.Prelude.{
  ◌*◌, ltb, ◌&&◌, leb, ◌^◌, ◌+◌, zero, ap, ◌∙◌, lt→ltb, none, All-append, suc, true, length, refl,
  le→leb, [], arith, ◌∷◌, false, ◌<◌, if◌then◌else◌, some, ◌++◌, All, ◌≤◌, ◌≡◌, List, ℕ,
}
use mathlib.Core.List.{append_assoc, append-nil}
use csci.Vmmap.{
  move_start, Overlap, shorten, overlap, upper_part, UserSpace, Vmarea, World, insert_at_cursor,
  insert_area, has_place, check_insert,
}
use csci.Vmmap.Effects.{remove_loop, split_area, vmmap_remove}
use csci.Vmmap.Translate.{
  translate-cut_all, cut_all-Chain, translate, cut, cut_all, overlap-OverlapFacts,
}
use csci.Prelude.Words.{add32, add32-eq-add}

-- Every area has its object.
abbrev pub Owned : List Vmarea → Type 0
Owned = All (λ v. (o : ℕ) × (v.obj ≡ some o))

abbrev StartsBelow : ℕ → List Vmarea → Type 0
StartsBelow p = All (λ v. v.start < p)

has_place-false :
    (new : Vmarea) (p : ℕ) (xs : List Vmarea)
    → StartsBelow p xs
    → p ≤ new.end
    → has_place new xs ≡ false
unfolding has_place
has_place-false new p [] b h = refl
has_place-false new p (x ∷ xs) b h = ground (arith, has_place-false new p xs b.1)

-- In a sorted address space the upper part of a split goes right behind the cursor.
insert_at_cursor-behind :
    (new : Vmarea) (p hi : ℕ) (seen rest : List Vmarea)
    → StartsBelow p seen
    → p ≤ new.end
    → Chain new.end hi rest
    → insert_at_cursor new seen rest ≡ (seen ++ new ∷ [], rest)
unfolding insert_at_cursor
insert_at_cursor-behind new p hi seen [] b h c = rw (has_place-false new p seen b h)
insert_at_cursor-behind new p hi seen (v ∷ vs) b h c =
    rw (has_place-false new p seen b h) (rw (le→leb new.end v.start c.0))

-- Wherever the new area goes, the whole list is the one that vmmap_insert makes.
insert_area-append :
    (new : Vmarea) (xs ys : List Vmarea)
    → insert_area new (xs ++ ys)
      ≡ (if has_place new xs then insert_area new xs ++ ys else xs ++ insert_area new ys)
unfolding insert_area has_place
insert_area-append new [] ys = refl
insert_area-append new (x ∷ xs) ys = ground (arith, insert_area-append new xs ys)

starts_mono : (p q : ℕ) (xs : List Vmarea) → p ≤ q → StartsBelow p xs → StartsBelow q xs
starts_mono p q [] h b = tt
starts_mono p q (x ∷ xs) h b = (omega arith, starts_mono p q xs h b.1)

module _ {W : Type 0} (k : World W) (alloc : W → W)
    (room : (w : W) → k.slab_alloc w ≡ some (alloc w)) where
  -- What is done to the object of one area: a split takes a reference to it, a removal gives one back.
  unfoldable pub cut_effect : ℕ → ℕ → Vmarea → W → W
  cut_effect lo hi v w = elim (overlap lo hi v) [
    | Overlap.inside ↦ elim v.obj [ none ↦ w | some o ↦ k.ref o (alloc w) ]
    | Overlap.covered ↦ elim v.obj [ none ↦ w | some o ↦ k.put o w ]
    | _ ↦ w
  ]

  -- The world after the splits and the removals.
  unfoldable pub after_cuts : ℕ → ℕ → List Vmarea → W → W
  after_cuts lo hi [] w = w
  after_cuts lo hi (v ∷ vs) w = after_cuts lo hi vs (cut_effect lo hi v w)

  effect-inside :
      (lo hi o : ℕ) (v : Vmarea) (w : W)
      → overlap lo hi v ≡ Overlap.inside
      → v.obj ≡ some o
      → cut_effect lo hi v w ≡ k.ref o (alloc w)
  unfolding cut_effect
  effect-inside lo hi o v w e g = rw (e, g, cut_effect)

  effect-covered :
      (lo hi o : ℕ) (v : Vmarea) (w : W)
      → overlap lo hi v ≡ Overlap.covered
      → v.obj ≡ some o
      → cut_effect lo hi v w ≡ k.put o w
  unfolding cut_effect
  effect-covered lo hi o v w e g = rw (e, g, cut_effect)

  module _ (u : UserSpace) (lo hi : ℕ) (above : u.low ≤ lo) (order : lo ≤ hi) where
    split_area-done :
        (p o : ℕ) (seen : List Vmarea) (v : Vmarea) (rest : List Vmarea) (w : W)
        → StartsBelow p seen
        → p ≤ v.start
        → v.obj ≡ some o
        → hi < v.end
        → v.start < lo
        → v.end ≤ u.high
        → Chain v.end u.high rest
        → split_area k u lo hi seen v rest w
          ≡ done (
            (seen ++ shorten lo v ∷ []) ++ record (upper_part hi v) { attached = true } ∷ [],
            rest,
            k.ref o (alloc w),
          )
    unfolding split_area check_insert upper_part shorten
    split_area-done p o seen v rest w b h e i s t c =
        let new : Vmarea = record (upper_part hi v) { attached = true } in
        let place : insert_at_cursor new (seen ++ shorten lo v ∷ []) rest
            ≡ ((seen ++ shorten lo v ∷ []) ++ new ∷ [], rest) =
          insert_at_cursor-behind new v.end u.high (seen ++ shorten lo v ∷ []) rest
            (All-append _ seen _ (starts_mono p v.end seen (omega arith) b) (omega arith, tt))
            (omega arith) c in
        rw (room w, split_area)
          (rw (lt→ltb hi v.end i, le→leb u.low hi (omega arith), le→leb v.end u.high t, place, e))

    next :
        (p : ℕ) (seen : List Vmarea) (v x : Vmarea) (vs : List Vmarea)
        → StartsBelow p seen
        → Chain p u.high (v ∷ vs)
        → x.start < v.end
        → StartsBelow v.end (seen ++ x ∷ [])
    next p seen v x vs b c h =
        All-append _ seen (x ∷ []) (starts_mono p v.end seen (omega arith) b) (h, tt)

    -- One round, given what the rounds after it do.
    remove_round :
        (o : Overlap) (f p : ℕ) (seen : List Vmarea) (v : Vmarea) (vs : List Vmarea) (w : W)
        → StartsBelow p seen
        → Chain p u.high (v ∷ vs)
        → Owned (v ∷ vs)
        → overlap lo hi v ≡ o
        → ((xs : List Vmarea) (w' : W)
            → StartsBelow v.end xs
            → remove_loop k f u lo hi xs vs w'
              ≡ done (xs ++ cut_all lo hi vs, after_cuts lo hi vs w'))
        → remove_loop k (suc f) u lo hi seen (v ∷ vs) w
          ≡ done (seen ++ cut_all lo hi (v ∷ vs), after_cuts lo hi (v ∷ vs) w)
    unfolding remove_loop cut_all after_cuts cut_effect shorten move_start upper_part
    remove_round Overlap.inside f p seen v vs w b c own e ih =
        let (i, s) = overlap-OverlapFacts lo hi v Overlap.inside order c.1 e in
        let up : Vmarea = record (upper_part hi v) { attached = true } in
        let split = split_area-done p own.0.0 seen v vs w b c.0 own.0.1 i s c.2 c.3 in
        let front = next p seen v (shorten lo v) vs b c (omega arith) in
        rw (effect-inside lo hi own.0.0 v w e own.0.1) (
          rw (e, split, remove_loop, cut)
            (ih _ _ (All-append _ (seen ++ shorten lo v ∷ []) (up ∷ []) front (i, tt))
              ∙ ap (λ xs. done (xs, after_cuts lo hi vs (k.ref own.0.0 (alloc w))))
                  (append_assoc (seen ++ shorten lo v ∷ []) (up ∷ []) (cut_all lo hi vs)
                    ∙ append_assoc seen (shorten lo v ∷ []) (up ∷ cut_all lo hi vs))))
    remove_round Overlap.over_end f p seen v vs w b c own e ih =
        rw (e, remove_loop, cut_effect, cut)
          (ih _ w (next p seen v (shorten lo v) vs b c c.1)
            ∙ ap (λ xs. done (xs, after_cuts lo hi vs w)) (append_assoc seen _ _))
    remove_round Overlap.over_start f p seen v vs w b c own e ih =
        let (i, s, t) = overlap-OverlapFacts lo hi v Overlap.over_start order c.1 e in
        rw (e, remove_loop, cut_effect, cut)
          (ih _ w (next p seen v (move_start hi v) vs b c i)
            ∙ ap (λ xs. done (xs, after_cuts lo hi vs w)) (append_assoc seen _ _))
    remove_round Overlap.covered f p seen v vs w b c own e ih =
        rw (effect-covered lo hi own.0.0 v w e own.0.1)
          (rw (e, own.0.1, remove_loop, cut) (ih seen _ (starts_mono p v.end seen (omega arith) b)))
    remove_round Overlap.apart f p seen v vs w b c own e ih =
        rw (e, remove_loop, cut_effect, cut)
          (ih _ w (next p seen v v vs b c c.1)
            ∙ ap (λ xs. done (xs, after_cuts lo hi vs w)) (append_assoc seen _ _))

    remove_loop-cut_all :
        (f p : ℕ) (seen rest : List Vmarea) (w : W)
        → length rest < f
        → StartsBelow p seen
        → Chain p u.high rest
        → Owned rest
        → remove_loop k f u lo hi seen rest w
          ≡ done (seen ++ cut_all lo hi rest, after_cuts lo hi rest w)
    unfolding remove_loop cut_all after_cuts
    remove_loop-cut_all zero p seen rest w m b c own = absurd (omega arith)
    remove_loop-cut_all (suc f) p seen [] w m b c own = rw append-nil
    remove_loop-cut_all (suc f) p seen (v ∷ vs) w m b c own =
        remove_round (overlap lo hi v) f p seen v vs w b c own refl
          λ xs w' g. remove_loop-cut_all f v.end xs vs w' (omega arith) g c.3 own.1

  -- In a sorted address space whose areas have their objects, and where allocation succeeds,
  -- vmmap_remove of pages that start in or above user space and end below 2 ^ 32 returns 0. The
  -- address space is sorted again; no page of the range is mapped, and every other page has the
  -- mapping that it had. The effects on the rest of the kernel are a reference to the object of
  -- each area that is split and a put of the object of each area that is removed, then the flush
  -- of the TLB, then the unmapping of the range from the page table.
  pub vmmap_remove-unmaps :
      (u : UserSpace) (map : List Vmarea) (lopage npages endvfn : ℕ) (w : W)
      → Chain u.low u.high map
      → Owned map
      → u.low ≤ lopage
      → lopage + npages ≡ endvfn
      → endvfn < 2 ^ 32
      → let map' = cut_all lopage endvfn map in
        (vmmap_remove k u map lopage npages w
          ≡ done (
            map',
            k.pt_unmap_range lopage endvfn (k.tlb_flush_all (after_cuts lopage endvfn map w)),
          ))
        × Chain u.low u.high map'
        × ((vfn : ℕ)
            → vfn < 2 ^ 32
            → translate map' vfn
              ≡ (if leb lopage vfn && ltb vfn endvfn then none else translate map vfn))
  unfolding vmmap_remove
  vmmap_remove-unmaps u map lopage npages endvfn w c own a e b =
      let order : lopage ≤ endvfn = omega arith in
      let sum : add32 lopage npages ≡ endvfn = add32-eq-add lopage npages (omega arith) ∙ e in
      (
        rw sum (
            rw
              (remove_loop-cut_all u lopage endvfn a order (2 * length map + 1) u.low [] map w
                (omega arith) tt c own)
              refl),
        cut_all-Chain lopage endvfn u.low u.high map c order,
        λ vfn h. translate-cut_all lopage endvfn u.low u.high vfn map c order h,
      )
