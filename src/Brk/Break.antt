-- ===== src/Brk/Break.antt =====
-- do_brk of Homework/Kernel/vm/brk.c against the view of Vmmap/Translate.
use csci.Vmmap.Translate.{cut_all, translate_below, translate-cons, translate, Page, page_of}
use csci.Vmmap.Insert.{scan_empty-some, scan_empty-Free, is_range_empty-done, EmptyAnswer}
use csci.Prelude.Words.{sub32-eq-sub, neg32-sub32, sub32}
use csci.Prelude.Outcome.{done, Outcome}
use csci.Vmmap.Unmap.{after_cuts, vmmap_remove-unmaps, Owned}
use csci.Paging.{user_space, user_space-IsLayout, enomem, err, ok, Reply, IsPaging, Paging}
use csci.Vmmap.Sorted.{In, lookup_sound, Free, Chain}
use csci.Brk.{move_break, grow_break, shrink_break, do_brk, Proc, set_end}
use csci.Prelude.{
  ge→ltb, lt→ltb, le_or_lt, ◌==◌, Bool-cases, ◌≢◌, ◌∙◌, inr, ◌-◌, inl, false, ◌^◌, ◌<◌, [], arith,
  none, ltb, ◌∷◌, ◌≤◌, ◌&&◌, leb, some, if◌then◌else◌, refl, ◌≡◌, Option, List, ℕ,
}
use csci.Vmmap.{scan_empty, World, vmmap_lookup, Vmarea}

-- The page table of an address space in which the area `v`, which starts at or below `vfn`, is made to
-- end at `new`.
abbrev pub break_view : Vmarea → ℕ → ℕ → Option Page → Option Page
break_view v new vfn before =
    if leb new vfn && ltb vfn v.end
    then none
    else if leb v.end vfn && ltb vfn new
    then some (page_of v vfn)
    else before

page_of-end : (v : Vmarea) (e vfn : ℕ) → page_of (record v { end = e }) vfn ≡ page_of v vfn
unfolding page_of
page_of-end v e vfn = refl

-- Areas behind a free range start behind it.
Chain-raise : (lo e q : ℕ) (vs : List Vmarea) → Chain lo q vs → Free lo e vs → Chain e q vs
Chain-raise lo e q [] c f = tt
Chain-raise lo e q (v ∷ vs) c f = (ground arith, c.1, c.2, c.3)

set_end-Chain :
    (p q s e : ℕ) (v : Vmarea) (vs : List Vmarea)
    → Chain p q vs
    → vmmap_lookup vs s ≡ some v
    → Free v.end e vs
    → v.end ≤ e
    → e ≤ q
    → Chain p q (set_end s e vs)
unfolding vmmap_lookup set_end
set_end-Chain p q s e v [] c l f a b = cc
set_end-Chain p q s e v (x ∷ xs) c l f a b =
    ground (arith, set_end-Chain x.end q s e v xs c.3, Chain-raise x.end e q xs c.3)

translate-set_end :
    (p q s e vfn : ℕ) (v : Vmarea) (vs : List Vmarea)
    → Chain p q vs
    → vmmap_lookup vs s ≡ some v
    → Free v.end e vs
    → v.end ≤ e
    → translate (set_end s e vs) vfn
      ≡ (if leb v.end vfn && ltb vfn e then some (page_of v vfn) else translate vs vfn)
unfolding vmmap_lookup set_end
translate-set_end p q s e vfn v [] c l f a = cc
translate-set_end p q s e vfn v (x ∷ xs) c l f a = ground (
  arith,
  translate-cons x xs vfn,
  translate-cons x (set_end s e xs) vfn,
  page_of-end x e vfn,
  translate-cons (record x { end = e }) xs vfn,
  translate-set_end x.end q s e vfn v xs c.3,
  translate_below e q vfn xs,
  Chain-raise x.end e q xs c.3,
)

-- The page at which the dynamic region ends once the break is `addr`.
abbrev pub break_page : Paging → ℕ → ℕ
break_page pg addr = pg.addr_to_pn (pg.page_align_up addr)

-- What do_brk leaves behind when it moves the break to `addr`, where `v` is the area that holds the
-- start of the dynamic region.
abbrev pub BreakMoved : Paging → Vmarea → ℕ → Proc → Reply ℕ → Proc → Type 0
BreakMoved pg v addr p (ok a) p' =
    (a ≡ addr)
    × (p'.p_brk ≡ addr)
    × (p'.p_start_brk ≡ p.p_start_brk)
    × Chain (pg.addr_to_pn pg.mem_low) (pg.addr_to_pn pg.mem_high) p'.p_vmmap
    × ((vfn : ℕ)
        → vfn < 2 ^ 32
        → translate p'.p_vmmap vfn
          ≡ break_view v (break_page pg addr) vfn (translate p.p_vmmap vfn))
BreakMoved pg v addr p (err e) p' =
    (e ≡ enomem) × (p' ≡ p) × EmptyAnswer p.p_vmmap v.end (break_page pg addr) false

-- The rest of the kernel, where the call is refused.
abbrev pub Refused : {W : Type 0} → Reply ℕ → W → W → Type 0
Refused (ok a) w w' = Unit
Refused (err e) w w' = w' ≡ w

abbrev pub Moves :
    {W : Type 0} → Paging → Vmarea → ℕ → Proc → W → Outcome (Reply ℕ × Proc × W) → Type 0
Moves {W = W} pg v addr p w o =
    (r : Reply ℕ) × (p' : Proc) × (w' : W) × (o ≡ done (r, p', w'))
    × BreakMoved pg v addr p r p'
    × Refused r w w'

In-bounds :
    (p q : ℕ) (v : Vmarea) (vs : List Vmarea)
    → Chain p q vs
    → In v vs
    → (p ≤ v.start) × (v.start < v.end) × (v.end ≤ q)
In-bounds p q v [] c i = absurd i
In-bounds p q v (x ∷ xs) c (inl e) = ground arith
In-bounds p q v (x ∷ xs) c (inr i) =
    let (a, b, d) = In-bounds x.end q v xs c.3 i in (omega arith, b, d)

module _ {W : Type 0} (k : World W) (alloc : W → W)
    (room : (w : W) → k.slab_alloc w ≡ some (alloc w)) (pg : Paging) (h : IsPaging pg) where
  module _ (addr : ℕ) (v : Vmarea) (p : Proc) (w : W)
      (c : Chain (pg.addr_to_pn pg.mem_low) (pg.addr_to_pn pg.mem_high) p.p_vmmap)
      (own : Owned p.p_vmmap) (low : pg.mem_low ≤ p.p_start_brk) (start : p.p_start_brk ≤ addr)
      (high : addr ≤ pg.mem_high)
      (l : vmmap_lookup p.p_vmmap (pg.addr_to_pn p.p_start_brk) ≡ some v) where
    new_range :
        (pg.addr_to_pn pg.mem_low ≤ break_page pg addr)
        × (break_page pg addr ≤ pg.addr_to_pn pg.mem_high)
    new_range =
        rw
          (
            h.to_pn pg.mem_low,
            h.to_pn pg.mem_high,
            h.to_pn (pg.page_align_up addr),
            h.align_up addr,
          )
          (omega (arith, h.high_aligned), omega (arith, h.high_aligned))

    top : pg.addr_to_pn pg.mem_high < 2 ^ 31
    top = (user_space-IsLayout pg h).high_lt

    end_bound : v.end ≤ pg.addr_to_pn pg.mem_high
    end_bound = (In-bounds _ _ v p.p_vmmap c (lookup_sound p.p_vmmap _ v l).0).2

    shrinks :
        (n : ℕ)
        → n ≡ break_page pg addr
        → n < v.end
        → Moves pg v addr p w (shrink_break k pg addr n (sub32 n v.end) p w)
    unfolding shrink_break
    shrinks n e lt =
        let below : v.end < 2 ^ 32 = omega (arith, end_bound, top) in
        let (runs, sorted, view) =
          vmmap_remove-unmaps k alloc room (user_space pg) p.p_vmmap n (v.end - n) v.end w c own
            (rw e new_range.0) (omega arith) below in
        (
          ok addr,
          record p { p_brk = addr; p_vmmap = cut_all n v.end p.p_vmmap },
          k.pt_unmap_range n v.end (k.tlb_flush_all (after_cuts k alloc room n v.end p.p_vmmap w)),
          rw (neg32-sub32 n v.end lt below) (rw runs refl),
          (refl, refl, refl, sorted, λ vfn b. rw (← e) (view vfn b ∙ ground arith)),
          tt,
        )

    grows :
        (n : ℕ)
        → n ≡ break_page pg addr
        → v.end < n
        → Moves pg v addr p w (grow_break k pg addr v.end n (sub32 n v.end) p w)
    unfolding grow_break
    grows n e lt =
        let inside : n ≤ pg.addr_to_pn pg.mem_high = rw e new_range.1 in
        let size : sub32 n v.end ≡ n - v.end =
          sub32-eq-sub n v.end (omega arith) (omega (arith, top)) in
        let (a, b, d) = In-bounds _ _ v p.p_vmmap c (lookup_sound p.p_vmmap _ v l).0 in
        let runs =
          is_range_empty-done (user_space pg) p.p_vmmap v.end (n - v.end) n
            (user_space-IsLayout pg h) (omega arith) lt (omega arith) inside in
        elim (Bool-cases (scan_empty v.end n p.p_vmmap)) [
          | inl empty ↦
              let free = scan_empty-Free v.end n _ _ p.p_vmmap c empty in
              (
                ok addr,
                record p {
                  p_brk = addr;
                  p_vmmap = set_end (pg.addr_to_pn p.p_start_brk) n p.p_vmmap;
                },
                w,
                rw (size, runs, empty),
                (
                  refl,
                  refl,
                  refl,
                  set_end-Chain _ _ _ n v p.p_vmmap c l free (omega arith) inside,
                  λ vfn x. rw (← e) (
                      translate-set_end _ _ (pg.addr_to_pn p.p_start_brk) n vfn v p.p_vmmap c l free
                        (omega arith)
                      ∙ ground arith),
                ),
                tt,
              )
          | inr used ↦ (
            err enomem,
            p,
            w,
            rw (size, runs, used),
            (refl, refl, rw (← e) (scan_empty-some v.end n _ _ p.p_vmmap c lt used)),
            refl,
          )
        ]

    stays :
        break_page pg addr ≡ v.end
        → Moves pg v addr p w (done (ok addr, record p { p_brk = addr }, w))
    stays e = (
      ok addr,
      record p { p_brk = addr },
      w,
      refl,
      (refl, refl, refl, c, λ vfn b. ground arith),
      tt,
    )

    moved : Moves pg v addr p w (move_break k pg addr p w)
    unfolding move_break
    moved =
        let new = break_page pg addr in
        rw (l, move_break)
          (elim (le_or_lt v.end new) [
            | inr lt ↦ rw (lt→ltb new v.end lt) (shrinks new refl lt)
            | inl ge ↦ rw (ge→ltb new v.end ge) (elim (le_or_lt new v.end) [
              | inr gt ↦ rw (lt→ltb v.end new gt) (grows new refl gt)
              | inl le ↦ rw (ge→ltb v.end new le) (stays (omega arith))
            ])
          ])

    -- In a sorted address space whose areas have their objects, where the start of the dynamic
    -- region is in user space and mapped and where allocation succeeds, a call of do_brk with an
    -- address that is not NULL, from the start of the dynamic region up to the end of user space,
    -- returns. It sets the break, and the pages of the region then end at the page of the new
    -- break: the pages behind it are unmapped, new ones are mapped by the region's area, and all
    -- others are as before. Or it returns -ENOMEM and changes nothing, in the process or elsewhere, where a page that it would
    -- have to take is mapped.
    pub do_brk-Moves : addr ≢ 0 → Moves pg v addr p w (do_brk k pg addr p w)
    unfolding do_brk
    do_brk-Moves ne =
        let not_null : (addr == 0) ≡ false = ground arith in
        rw (not_null, ge→ltb addr p.p_start_brk start, ge→ltb pg.mem_high addr high) moved
