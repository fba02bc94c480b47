-- ===== src/Vmmap/FindRange.antt =====
-- vmmap_find_range of Homework/Kernel/vm/vmmap.c: the best gap, or none where no gap is wide
-- enough.
use csci.Vmmap.Gaps.{
  Free-below, up_some, up_least, up_none, Down, reverse_aux-Down, All-reverse_aux, reverse_aux-All,
  Down-some, Down-greatest, Down-none,
}
use csci.Prelude.{
  gt→leb, le→leb, reverse, Option-cases, le_or_lt, ℕ, ◌+◌, ◌-◌, ◌≤◌, ◌<◌, ◌^◌, ◌≡◌, inl, inr,
  Option, none, some, List, [], ◌∷◌, arith,
}
use csci.Prelude.Outcome.{Outcome, done}
use csci.Prelude.Words.{sub32, sub32-eq-sub}
use csci.Vmmap.{
  Vmarea, UserSpace, Dir, hilo, lohi, scan_down, scan_up, below_head, above_tail, vmmap_find_range,
}
use csci.Vmmap.Sorted.{Chain, Free, IsLayout}

-- `npages` pages from `vfn` lie in user space and hold no mapped page.
pub record Fits (u : UserSpace) (npages : ℕ) (vs : List Vmarea) (vfn : ℕ) : Type 0 where
  pub above : u.low ≤ vfn
  pub within : vfn + npages ≤ u.high
  pub free : Free vfn (vfn + npages) vs

-- The highest or the lowest range that fits; `none` where no range does.
abbrev pub Best : UserSpace → ℕ → List Vmarea → Dir → Option ℕ → Type 0
Best u n vs dir none = (x : ℕ) → ¬ Fits u n vs x
Best u n vs hilo (some r) = Fits u n vs r × ((x : ℕ) → Fits u n vs x → x ≤ r)
Best u n vs lohi (some r) = Fits u n vs r × ((x : ℕ) → Fits u n vs x → r ≤ x)

-- The result of a search at one end of the address space, once the loop has found nothing.
abbrev Finds : UserSpace → ℕ → List Vmarea → Dir → Outcome (Option ℕ) → Type 0
Finds u n vs dir o = (r : Option ℕ) × (o ≡ done r) × Best u n vs dir r

module _ (u : UserSpace) (l : IsLayout u) (n : ℕ) (np : 0 < n) (v : Vmarea) (vs : List Vmarea)
    (c : Chain u.low u.high (v ∷ vs)) where
  down : Down u.low u.high (reverse (v ∷ vs))
  down =
      reverse_aux-Down u.low u.low u.high (v ∷ vs) [] c tt (omega arith)
        (ground (arith, l.low_lt_high))

  below_head-Best :
      scan_down n u.high (reverse (v ∷ vs)) ≡ none
      → Finds u n (v ∷ vs) hilo (below_head u n (v ∷ vs))
  unfolding below_head
  below_head-Best e = elim (le_or_lt n (v.start - u.low)) [
    | inl fits ↦ (
      some (v.start - n),
      ground (arith, wrap, sub32-eq-sub v.start n),
      (
        record {
          above = omega arith;
          within = ground (arith, bound);
          free =
              Free-below v.start u.high (v.start - n) (v.start - n + n) (v ∷ vs) at_head
                (omega arith);
        },
        λ x f. omega (arith, under x f),
      ),
    )
    | inr narrow ↦ (none, ground (arith, wrap), λ x f. omega (arith, under x f, f.above))
  ]
    where
      wrap : sub32 v.start u.low ≡ v.start - u.low
      wrap = sub32-eq-sub v.start u.low c.0 (omega (arith, l.high_lt))

      bound : v.start < u.high
      bound = omega arith

      at_head : Chain v.start u.high (v ∷ vs)
      at_head = (omega arith, c.1, c.2, c.3)

      under : (x : ℕ) → Fits u n (v ∷ vs) x → x + n ≤ v.start
      under x f =
          (All-reverse_aux (λ w. x + n ≤ w.start) (v ∷ vs) []
            (Down-none u.low n np u.high x (reverse (v ∷ vs)) down (omega (arith, l.low_lt_high))
              (omega (arith, l.high_lt)) e f.within (reverse_aux-All _ (v ∷ vs) [] f.free tt))).0.0

  hilo-Best : Finds u n (v ∷ vs) hilo (vmmap_find_range u (v ∷ vs) n hilo)
  unfolding vmmap_find_range
  hilo-Best = elim (Option-cases (scan_down n u.high (reverse (v ∷ vs)))) [
    | inl e ↦ rw (e, vmmap_find_range) (below_head-Best e)
    | inr (r, e) ↦
        let top : u.high < 2 ^ 31 = l.high_lt in
        let order : u.low ≤ u.high = omega (arith, l.low_lt_high) in
        let (a, b, f) = Down-some u.low n np u.high r (reverse (v ∷ vs)) down order top e in
        let free = All-reverse_aux _ (v ∷ vs) [] f in
        (
          some r,
          rw (e, vmmap_find_range),
          (
            record { above = a; within = b; free = free.0 },
            λ x g.
                Down-greatest u.low n np u.high r x (reverse (v ∷ vs)) down order top e g.within
                  (reverse_aux-All _ (v ∷ vs) [] g.free tt),
          ),
        )
  ]

  above_tail-Best :
      scan_up n u.low (v ∷ vs) ≡ none → Finds u n (v ∷ vs) lohi (above_tail u n (v ∷ vs))
  unfolding above_tail
  above_tail-Best e =
      let (t, last, a, b, free, least) = up_none u.high n l.high_lt np u.low v vs c l.low_pos e in
      let wrap : sub32 u.high t.end ≡ u.high - t.end =
        sub32-eq-sub u.high t.end b (omega (arith, l.high_lt)) in
      let before : (x : ℕ) → Fits u n (v ∷ vs) x → t.end ≤ x = λ x f. least x f.above f.free in
      elim (le_or_lt n (u.high - t.end)) [
        | inl fits ↦ (
          some t.end,
          rw (last, wrap, le→leb _ _ fits),
          (record { above = a; within = omega arith; free = free }, before),
        )
        | inr narrow ↦
            (none, rw (last, wrap, gt→leb _ _ narrow), λ x f. omega (arith, before x f, f.within))
      ]

  lohi-Best : Finds u n (v ∷ vs) lohi (vmmap_find_range u (v ∷ vs) n lohi)
  unfolding vmmap_find_range
  lohi-Best = elim (Option-cases (scan_up n u.low (v ∷ vs))) [
    | inl e ↦ rw (e, vmmap_find_range) (above_tail-Best e)
    | inr (r, e) ↦
        let (a, b, f) = up_some u.high n l.high_lt np u.low r (v ∷ vs) c l.low_pos e in
        (
          some r,
          rw (e, vmmap_find_range),
          (
            record { above = a; within = b; free = f },
            λ x g. up_least u.high n l.high_lt np u.low r x (v ∷ vs) c l.low_pos e g.above g.free,
          ),
        )
  ]

-- In a sorted address space that is not empty, a search for a positive number of pages returns,
-- and gives the highest range (VMMAP_DIR_HILO) or the lowest (VMMAP_DIR_LOHI) of so many free
-- pages in user space; it gives -1 only if there is no such range. User space is not empty, does
-- not hold page 0 and ends below page 2 ^ 31.
pub find_range-Best :
    (u : UserSpace) (n : ℕ) (v : Vmarea) (vs : List Vmarea) (dir : Dir)
    → IsLayout u
    → 0 < n
    → Chain u.low u.high (v ∷ vs)
    → (r : Option ℕ) × (vmmap_find_range u (v ∷ vs) n dir ≡ done r) × Best u n (v ∷ vs) dir r
find_range-Best u n v vs hilo l np c = hilo-Best u l n np v vs c
find_range-Best u n v vs lohi l np c = lohi-Best u l n np v vs c
