-- ===== src/Vmmap/Insert.antt =====
-- vmmap_insert, vmmap_lookup and vmmap_is_range_empty of Homework/Kernel/vm/vmmap.c against the
-- view of Translate.
use csci.Prelude.Words.{add32-eq-add, add32}
use csci.Prelude.Outcome.{done}
use csci.Vmmap.Translate.{page_of, translate}
use csci.Vmmap.Sorted.{
  lookup-insert_area, insert_area-Chain, lookup_complete, lookup_sound, lookup_below, In, Free,
  Chain, IsLayout,
}
use csci.Prelude.{
  ap, ◌∙◌, refl, inr, le→leb, [], lt→ltb, inl, ◌&&◌, Bool-cases, ltb, arith, ◌↔◌, ◌∷◌, ◌+◌, none,
  true, false, some, leb, ◌≤◌, ◌≡◌, ◌<◌, Bool, if◌then◌else◌, ℕ, List,
}
use csci.Vmmap.{
  insert_area, check_insert, Vmarea, vmmap_lookup, vmmap_is_range_empty, scan_empty, vmmap_insert,
  UserSpace,
}

-- In a sorted address space vmmap_lookup finds an area exactly when it is one of the areas and
-- holds the page.
pub lookup_iff :
    (u : UserSpace) (map : List Vmarea) (vfn : ℕ) (v : Vmarea)
    → Chain u.low u.high map
    → (vmmap_lookup map vfn ≡ some v) ↔ (In v map × (v.start ≤ vfn) × (vfn < v.end))
lookup_iff u map vfn v c =
    (lookup_sound map vfn v, λ h. lookup_complete u.low u.high map vfn v c h.0 h.1 h.2)

-- In a sorted address space, a fresh area that is not empty, lies in user space and overlaps no
-- area is inserted without a failed assertion. The address space stays sorted, the pages of the
-- new area are mapped by it, and the others are as before.
pub vmmap_insert-maps :
    (u : UserSpace) (new : Vmarea) (map : List Vmarea)
    → Chain u.low u.high map
    → new.attached ≡ false
    → new.start < new.end
    → u.low ≤ new.start
    → new.end ≤ u.high
    → Free new.start new.end map
    → (map' : List Vmarea) × (vmmap_insert u new map ≡ done map')
      × Chain u.low u.high map'
      × ((vfn : ℕ)
          → translate map' vfn ≡ (
              if ltb vfn new.end && leb new.start vfn
              then some (page_of new vfn)
              else translate map vfn))
unfolding vmmap_insert check_insert translate page_of
vmmap_insert-maps u new map c fresh a b d f =
    let put : Vmarea = record new { attached = true } in
    (
      insert_area put map,
      rw (fresh, lt→ltb _ _ a, le→leb _ _ b, le→leb _ _ d),
      insert_area-Chain u.low u.high put map c f b a d,
      λ vfn. ground (arith, lookup-insert_area u.low u.high put map vfn c f),
    )

-- The answer of vmmap_is_range_empty about pages in user space: yes if no page of the range is mapped,
-- no if some page is.
abbrev pub EmptyAnswer : List Vmarea → ℕ → ℕ → Bool → Type 0
EmptyAnswer map lo hi true = (vfn : ℕ) → lo ≤ vfn → vfn < hi → vmmap_lookup map vfn ≡ none
EmptyAnswer map lo hi false =
    (vfn : ℕ) × (v : Vmarea) × (lo ≤ vfn) × (vfn < hi) × (vmmap_lookup map vfn ≡ some v)

scan_empty-none :
    (lo hi p q vfn : ℕ) (vs : List Vmarea)
    → Chain p q vs
    → scan_empty lo hi vs ≡ true
    → lo ≤ vfn
    → vfn < hi
    → vmmap_lookup vs vfn ≡ none
unfolding scan_empty vmmap_lookup
scan_empty-none lo hi p q vfn [] c e a b = refl
scan_empty-none lo hi p q vfn (v ∷ vs) c e a b =
    ground (arith, scan_empty-none lo hi v.end q vfn vs c.3, lookup_below q v.end vfn vs c.3)

-- The page that a refusal is about.
overlap_page : ℕ → Vmarea → ℕ
overlap_page lo v = if leb v.start lo then lo else v.start

pub scan_empty-some :
    (lo hi p q : ℕ) (vs : List Vmarea)
    → Chain p q vs
    → lo < hi
    → scan_empty lo hi vs ≡ false
    → EmptyAnswer vs lo hi false
unfolding scan_empty vmmap_lookup overlap_page
scan_empty-some lo hi p q [] c h e = cc
scan_empty-some lo hi p q (v ∷ vs) c h e = elim (Bool-cases (ltb v.start hi && ltb lo v.end)) [
  | inl hit ↦ (overlap_page lo v, v, ground arith, ground arith, ground arith)
  | inr miss ↦
      let (vfn, w, a, b, l) = scan_empty-some lo hi v.end q vs c.3 h (ground arith) in
      (vfn, w, a, b, ground (arith, lookup_below q v.end vfn vs c.3))
]

-- Areas that all start at or behind `hi`.
Free-after : (hi p q lo : ℕ) (vs : List Vmarea) → Chain p q vs → hi ≤ p → Free lo hi vs
Free-after hi p q lo [] c h = tt
Free-after hi p q lo (v ∷ vs) c h =
    (inr (omega arith), Free-after hi v.end q lo vs c.3 (omega arith))

pub is_range_empty-done :
    (u : UserSpace) (map : List Vmarea) (startvfn npages endvfn : ℕ)
    → IsLayout u
    → u.low ≤ startvfn
    → startvfn < endvfn
    → startvfn + npages ≡ endvfn
    → endvfn ≤ u.high
    → vmmap_is_range_empty u map startvfn npages ≡ done (scan_empty startvfn endvfn map)
unfolding vmmap_is_range_empty
is_range_empty-done u map s n e l a p q b =
    let sum : add32 s n ≡ e = add32-eq-add s n (omega (arith, l.high_lt)) ∙ q in
    rw sum (rw (lt→ltb s e p, le→leb u.low s a, le→leb e u.high b))

-- The scan says yes only if no area holds a page of the range.
pub scan_empty-Free :
    (lo hi p q : ℕ) (vs : List Vmarea) → Chain p q vs → scan_empty lo hi vs ≡ true → Free lo hi vs
unfolding scan_empty
scan_empty-Free lo hi p q [] c e = tt
scan_empty-Free lo hi p q (v ∷ vs) c e =
    ground (arith, scan_empty-Free lo hi v.end q vs c.3, Free-after hi v.end q lo vs c.3)

-- For a range of pages in user space that is not empty, and a sorted address space,
-- vmmap_is_range_empty returns, with a yes if no page of the range is mapped and with a no if some
-- page is. User space is not empty, does not hold page 0 and ends below page 2 ^ 31.
pub is_range_empty-answers :
    (u : UserSpace) (map : List Vmarea) (startvfn npages endvfn : ℕ)
    → IsLayout u
    → Chain u.low u.high map
    → u.low ≤ startvfn
    → startvfn < endvfn
    → startvfn + npages ≡ endvfn
    → endvfn ≤ u.high
    → (b : Bool) × (vmmap_is_range_empty u map startvfn npages ≡ done b)
      × EmptyAnswer map startvfn endvfn b
is_range_empty-answers u map s n e l c a p q b =
    let runs = is_range_empty-done u map s n e l a p q b in
    elim (Bool-cases (scan_empty s e map)) [
      | inl free ↦ (
        true,
        runs ∙ ap done free,
        λ vfn h k. scan_empty-none s e u.low u.high vfn map c free h k,
      )
      | inr used ↦ (false, runs ∙ ap done used, scan_empty-some s e u.low u.high map c p used)
    ]
