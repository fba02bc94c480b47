-- ===== src/Mmap/Munmap.antt =====
-- do_munmap of Homework/Kernel/vm/mmap.c against the view of Vmmap/Translate.
use csci.Vmmap.{Vmarea, World}
use csci.Prelude.Words.{add32-eq-add, add32}
use csci.Prelude.Outcome.{done}
use csci.Vmmap.Translate.{cut_all, translate}
use csci.Mmap.{refuses_munmap, do_munmap}
use csci.Vmmap.Unmap.{after_cuts, vmmap_remove-unmaps, Owned}
use csci.Vmmap.Sorted.{Chain}
use csci.Paging.{user_space, einval, err, ok, IsPaging, Reply, Paging}
use csci.Prelude.{
  refl, ◌==◌, inr, none, ltb, arith, inl, ◌&&◌, leb, Bool-cases, if◌then◌else◌, true, false, ◌^◌,
  ◌≤◌, ◌/◌, some, ◌<◌, ◌≡◌, ◌+◌, ◌%◌, List, ℕ,
}

-- The page behind the last byte of a range.
abbrev pub end_page : ℕ → ℕ → ℕ
end_page addr len = (addr + len + 4095) / 4096

-- What do_munmap may be asked to do: whole pages of user space, from their first byte.
abbrev pub CanUnmap : Paging → ℕ → ℕ → Type 0
CanUnmap pg addr len = (addr % 4096 ≡ 0) × (0 < len) × (addr + len ≤ pg.mem_high)

-- What do_munmap leaves behind.
abbrev pub Unmapped :
    {W : Type 0} → Paging → ℕ → ℕ → List Vmarea → W → Reply (Unit {0}) → List Vmarea → W → Type 0
Unmapped pg addr len map w (ok x) map' w' =
    CanUnmap pg addr len
    × Chain (pg.addr_to_pn pg.mem_low) (pg.addr_to_pn pg.mem_high) map'
    × ((vfn : ℕ)
        → vfn < 2 ^ 32
        → translate map' vfn ≡ (
            if leb (addr / 4096) vfn && ltb vfn (end_page addr len)
            then none
            else translate map vfn))
Unmapped pg addr len map w (err e) map' w' =
    (e ≡ einval) × (map' ≡ map) × (w' ≡ w) × ¬ CanUnmap pg addr len

module _ {W : Type 0} (k : World W) (alloc : W → W)
    (room : (w : W) → k.slab_alloc w ≡ some (alloc w)) (pg : Paging) (h : IsPaging pg) where
  module _ (addr len : ℕ) (map : List Vmarea) (w : W)
      (c : Chain (pg.addr_to_pn pg.mem_low) (pg.addr_to_pn pg.mem_high) map) (own : Owned map)
      (low : pg.mem_low ≤ addr) (fits : addr + len < 2 ^ 32) where
    refuses : refuses_munmap pg addr len ≡ true → ¬ CanUnmap pg addr len
    unfolding refuses_munmap
    refuses r (al, pos, high) =
        let sum : add32 addr len ≡ addr + len = add32-eq-add addr len fits in
        ground (arith, h.aligned addr)

    accepts : refuses_munmap pg addr len ≡ false → CanUnmap pg addr len
    unfolding refuses_munmap
    accepts r =
        let sum : add32 addr len ≡ addr + len = add32-eq-add addr len fits in
        ground (arith, h.aligned addr)

    -- In a sorted address space whose areas have their objects, and where allocation succeeds, a
    -- call of do_munmap for a range that does not start below user space and ends below 2 ^ 32
    -- returns. It unmaps the pages that the range touches, leaves all others as they were and
    -- keeps the address space sorted; or it returns -EINVAL and changes nothing, where the range
    -- does not start at a page, is empty or ends above user space.
    pub do_munmap-Unmapped :
        (r : Reply (Unit {0})) × (map' : List Vmarea) × (w' : W) × (do_munmap k pg addr len map w
          ≡ done (r, map', w'))
        × Unmapped pg addr len map w r map' w'
    unfolding do_munmap
    do_munmap-Unmapped = elim (Bool-cases (refuses_munmap pg addr len)) [
      | inl bad ↦ (err einval, map, w, rw bad refl, (refl, refl, refl, refuses bad))
      | inr good ↦
          let can = accepts good in
          let n = len / 4096 + (if len % 4096 == 0 then 0 else 1) in
          let first : pg.addr_to_pn addr ≡ addr / 4096 = h.to_pn addr in
          let above : pg.addr_to_pn pg.mem_low ≤ pg.addr_to_pn addr =
            rw (h.to_pn pg.mem_low, first) (omega (arith, low)) in
          let sum : pg.addr_to_pn addr + n ≡ end_page addr len = rw first (ground (arith, can)) in
          let (runs, sorted, view) =
            vmmap_remove-unmaps k alloc room (user_space pg) map (pg.addr_to_pn addr) n
              (end_page addr len) w c own above sum (omega (arith, fits)) in
          (
            ok tt,
            cut_all (pg.addr_to_pn addr) (end_page addr len) map,
            k.tlb_flush_all (
                k.pt_unmap_range (pg.addr_to_pn addr) (end_page addr len) (
                  k.tlb_flush_all
                    (after_cuts k alloc room (pg.addr_to_pn addr) (end_page addr len) map w))),
            rw good (rw runs refl),
            (can, sorted, λ vfn b. rw (← first) (view vfn b)),
          )
    ]
