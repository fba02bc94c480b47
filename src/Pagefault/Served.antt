-- ===== src/Pagefault/Served.antt =====
-- handle_pagefault against the view of Vmmap/Translate: which faults are served, and how.
use csci.Paging.{IsPaging, Paging}
use csci.Vmmap.Sorted.{lookup_sound}
use csci.Prelude.Outcome.{panic, done, Outcome}
use csci.Vmmap.Translate.{Page, page_of, translate}
use csci.Vmmap.{vmmap_lookup, Vmarea}
use csci.Prelude.{
  ◌*◌, ap, ◌/◌, Bool, inr, inl, Bool-cases, refl, some, none, ◌^◌, ◌<◌, arith, ◌≤◌, List, false,
  true, ◌≡◌, Option, ℕ,
}
use csci.Prelude.Words.{sub32, add32}
use csci.Pagefault.{
  PageFlags, fetch_page, enter_page, Handled, Cause, handle_pagefault, denied, Frames,
}

module _ {W : Type 0} (k : Frames W) (pg : Paging) where
  -- The protection grants what the fault asks for: execution and writing where they are asked for, and
  -- reading where neither is.
  abbrev pub Grants : Cause → ℕ → Type 0
  Grants cause prot =
      (cause.write ≡ true → k.prot_write prot ≡ true)
      × (cause.exec ≡ true → k.prot_exec prot ≡ true)
      × (cause.write ≡ false → cause.exec ≡ false → k.prot_read prot ≡ true)

  -- The flags of a page that a user process may touch, and write if `writable`.
  abbrev pub user_page : Bool → PageFlags
  user_page writable = record { present = true; user = true; writable = writable }

  -- What the handler does with a fault on a page that the address space translates to `t`.
  pub data Served (vaddr : ℕ) (cause : Cause) (w : W)
      : Option Page → Outcome (Handled W) → Type 0 where
    not_mapped : Served vaddr cause w none (done (Handled.exits w))
    not_granted :
        (p : Page) → ¬ Grants cause p.prot → Served vaddr cause w (some p) (done (Handled.exits w))
    no_object : (p : Page) → p.obj ≡ none → Served vaddr cause w (some p) panic
    not_found :
        (p : Page) (o : ℕ)
        → p.obj ≡ some o
        → (k.lookuppage o p.pagenum cause.write w).0 ≡ none
        → Served vaddr cause w
            (some p)
            (done (Handled.exits (k.lookuppage o p.pagenum cause.write w).1))
    no_addr :
        (p : Page) (o frame : ℕ) (w1 : W)
        → Grants cause p.prot
        → p.obj ≡ some o
        → k.lookuppage o p.pagenum cause.write w ≡ (some frame, w1)
        → k.has_addr frame w1 ≡ false
        → Served vaddr cause w (some p) panic
    entered_to_read :
        (p : Page) (o frame : ℕ) (w1 w2 : W)
        → cause.write ≡ false
        → Grants cause p.prot
        → p.obj ≡ some o
        → k.lookuppage o p.pagenum false w ≡ (some frame, w1)
        → k.has_addr frame w1 ≡ true
        → w2
          ≡ k.pt_map
              (vaddr / 4096 * 4096)
              (k.virt_to_phys frame w1)
              (user_page false)
              (user_page false)
              w1
        → Served vaddr cause w
            (some p)
            (done (Handled.returns (k.tlb_flush (vaddr / 4096 * 4096) w2)))
    entered_to_write :
        (p : Page) (o frame : ℕ) (w1 w2 w3 : W)
        → cause.write ≡ true
        → Grants cause p.prot
        → p.obj ≡ some o
        → k.lookuppage o p.pagenum true w ≡ (some frame, w1)
        → k.has_addr frame w1 ≡ true
        → w2 ≡ k.unpin frame (k.dirty frame (k.pin frame w1))
        → w3
          ≡ k.pt_map
              (vaddr / 4096 * 4096)
              (k.virt_to_phys frame w2)
              (user_page true)
              (user_page true)
              w2
        → Served vaddr cause w
            (some p)
            (done (Handled.returns (k.tlb_flush (vaddr / 4096 * 4096) w3)))

  denied-Grants : (cause : Cause) (v : Vmarea) → denied k pg cause v ≡ true → ¬ Grants cause v.prot
  unfolding denied
  denied-Grants cause v d g = ground arith

  granted-Grants : (cause : Cause) (v : Vmarea) → denied k pg cause v ≡ false → Grants cause v.prot
  unfolding denied
  granted-Grants cause v d = ground arith

  same_pagenum :
      (v : Vmarea) (vfn : ℕ)
      → v.start ≤ vfn
      → vfn < 2 ^ 32
      → add32 (sub32 vfn v.start) v.off ≡ (page_of v vfn).pagenum
  unfolding add32 sub32 page_of
  same_pagenum v vfn a b = omega arith

  enter-Served :
      (vaddr : ℕ) (write exec : Bool) (w w1 : W) (p : Page) (o frame : ℕ)
      → IsPaging pg
      → Grants (record { write = write; exec = exec }) p.prot
      → p.obj ≡ some o
      → k.lookuppage o p.pagenum write w ≡ (some frame, w1)
      → Served vaddr
          (record { write = write; exec = exec })
          w
          (some p)
          (enter_page k pg vaddr (record { write = write; exec = exec }) frame w1)
  unfolding enter_page
  enter-Served vaddr false exec w w1 p o frame h g e r = elim (Bool-cases (k.has_addr frame w1)) [
    | inr bare ↦ rw (enter_page, bare) (Served.no_addr p o frame w1 g e r bare)
    | inl addr ↦
        let w2 =
          k.pt_map (vaddr / 4096 * 4096) (k.virt_to_phys frame w1) (user_page false)
            (user_page false) w1 in
        rw (enter_page, addr, h.align_down vaddr)
          (Served.entered_to_read p o frame w1 w2 refl g e r addr refl)
  ]
  enter-Served vaddr true exec w w1 p o frame h g e r = elim (Bool-cases (k.has_addr frame w1)) [
    | inr bare ↦ rw (enter_page, bare) (Served.no_addr p o frame w1 g e r bare)
    | inl addr ↦
        let w2 = k.unpin frame (k.dirty frame (k.pin frame w1)) in
        let w3 =
          k.pt_map (vaddr / 4096 * 4096) (k.virt_to_phys frame w2) (user_page true) (user_page true)
            w2 in
        rw (enter_page, addr, h.align_down vaddr)
          (Served.entered_to_write p o frame w1 w2 w3 refl g e r addr refl refl)
  ]

  fetch-Served :
      (vaddr : ℕ) (cause : Cause) (w : W) (p : Page) (o : Option ℕ)
      → IsPaging pg
      → Grants cause p.prot
      → p.obj ≡ o
      → Served vaddr cause w (some p) (fetch_page k pg vaddr cause p.pagenum o w)
  unfolding fetch_page
  fetch-Served vaddr cause w p none h g e = Served.no_object p e
  fetch-Served vaddr cause w p (some o) h g e = go (k.lookuppage o p.pagenum cause.write w).0 refl
    where
      go :
          (r : Option ℕ)
          → (k.lookuppage o p.pagenum cause.write w).0 ≡ r
          → Served vaddr cause w (some p) (fetch_page k pg vaddr cause p.pagenum (some o) w)
      go none r = rw (r, fetch_page) (Served.not_found p o e r)
      go (some frame) r =
          rw (r, fetch_page)
            (enter-Served vaddr cause.write cause.exec w (k.lookuppage o p.pagenum cause.write w).1
              p o frame h g e (ap (λ x. (x, (k.lookuppage o p.pagenum cause.write w).1)) r))

  -- Every fault at an address of the 32-bit address space is served by the page that the address space
  -- has there. Without one, without the protection that the fault needs, or where the lookup in the
  -- object fails, the process exits. Otherwise the frame that the object gives for that page is entered
  -- into the page table at the address of the page, for user space, and writable exactly where the fault is a write; then the frame
  -- has been pinned, marked dirty and unpinned before. The TLB is flushed for the page. An area without an object, or a frame
  -- without an address, fails an assertion.
  pub handle_pagefault-Served :
      (map : List Vmarea) (vaddr : ℕ) (cause : Cause) (w : W)
      → IsPaging pg
      → vaddr < 2 ^ 32
      → Served vaddr cause w
          (translate map (pg.addr_to_pn vaddr))
          (handle_pagefault k pg map vaddr cause w)
  unfolding handle_pagefault translate
  handle_pagefault-Served map vaddr cause w h b = go (vmmap_lookup map (pg.addr_to_pn vaddr)) refl
    where
      small : pg.addr_to_pn vaddr < 2 ^ 32
      small = rw (h.to_pn vaddr) (omega (arith, b))

      go :
          (found : Option Vmarea)
          → vmmap_lookup map (pg.addr_to_pn vaddr) ≡ found
          → Served vaddr cause w
              (translate map (pg.addr_to_pn vaddr))
              (handle_pagefault k pg map vaddr cause w)
      go none e = rw (e, translate, handle_pagefault) Served.not_mapped
      go (some v) e =
          rw (e, translate, handle_pagefault)
            (let (i, lo, hi) = lookup_sound map (pg.addr_to_pn vaddr) v e in
              rw (same_pagenum v (pg.addr_to_pn vaddr) lo small)
                (elim (Bool-cases (denied k pg cause v)) [
                  | inl d ↦ rw d (
                      Served.not_granted (page_of v (pg.addr_to_pn vaddr))
                        (denied-Grants cause v d))
                  | inr g ↦ rw g (
                      fetch-Served vaddr cause w (page_of v (pg.addr_to_pn vaddr)) v.obj h
                        (granted-Grants cause v g) refl)
                ]))
