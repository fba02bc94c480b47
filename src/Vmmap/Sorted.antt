-- ===== src/Vmmap/Sorted.antt =====
-- The invariant of an address space: the areas are not empty, lie in user space, are apart from one
-- another and stand in the order of their addresses.
use csci.Prelude.{
  All, ℕ, ◌≤◌, ◌<◌, ◌^◌, ◌≡◌, refl, ◌⊎◌, inl, inr, none, some, List, [], ◌∷◌, arith, if◌then◌else◌,
  ltb, leb, ◌&&◌,
}
use csci.Vmmap.{Vmarea, UserSpace, insert_area, vmmap_lookup}

-- The areas follow one another from `lo` and end at `hi` or before.
abbrev pub Chain : ℕ → ℕ → List Vmarea → Type 0
Chain lo hi [] = Unit {0}
Chain lo hi (v ∷ vs) = (lo ≤ v.start) × (v.start < v.end) × (v.end ≤ hi) × Chain v.end hi vs

-- User space is not empty, does not hold page 0, and its page numbers fit an int.
pub record IsLayout (u : UserSpace) : Type 0 where
  pub low_pos : 0 < u.low
  pub low_lt_high : u.low < u.high
  pub high_lt : u.high < 2 ^ 31

module _ (hi : ℕ) where
  pub Chain-mono : (lo lo' : ℕ) (vs : List Vmarea) → lo' ≤ lo → Chain lo hi vs → Chain lo' hi vs
  Chain-mono lo lo' [] h c = tt
  Chain-mono lo lo' (v ∷ vs) h c = (omega arith, c.1, c.2, c.3)

  -- A page below the first area is not mapped.
  pub lookup_below :
      (lo vfn : ℕ) (vs : List Vmarea) → Chain lo hi vs → vfn < lo → vmmap_lookup vs vfn ≡ none
  unfolding vmmap_lookup
  lookup_below lo vfn [] c h = refl
  lookup_below lo vfn (v ∷ vs) c h = ground (arith, lookup_below v.end vfn vs c.3)

-- `v` is one of the areas.
abbrev pub In : Vmarea → List Vmarea → Type 0
In v [] = ⊥
In v (x ∷ xs) = (v ≡ x) ⊎ In v xs

-- No area of the list holds a page from `lo` up to `hi`.
abbrev pub Free : ℕ → ℕ → List Vmarea → Type 0
Free lo hi = All (λ v. (v.end ≤ lo) ⊎ (hi ≤ v.start))

-- The area that vmmap_lookup finds is one of the list's and holds the page.
pub lookup_sound :
    (vs : List Vmarea) (vfn : ℕ) (v : Vmarea)
    → vmmap_lookup vs vfn ≡ some v
    → In v vs × (v.start ≤ vfn) × (vfn < v.end)
unfolding vmmap_lookup
lookup_sound [] vfn v e = cc
lookup_sound (x ∷ xs) vfn v e = ground (arith, lookup_sound xs vfn v)

-- Where an area of a sorted address space holds the page, vmmap_lookup finds that area.
pub lookup_complete :
    (lo hi : ℕ) (vs : List Vmarea) (vfn : ℕ) (v : Vmarea)
    → Chain lo hi vs
    → In v vs
    → v.start ≤ vfn
    → vfn < v.end
    → vmmap_lookup vs vfn ≡ some v
unfolding vmmap_lookup
lookup_complete lo hi [] vfn v c i a b = absurd i
lookup_complete lo hi (x ∷ xs) vfn v c (inl e) a b = ground arith
lookup_complete lo hi (x ∷ xs) vfn v c (inr i) a b =
    ground (arith, lookup_complete x.end hi xs vfn v c.3 i a b, lookup_below hi x.end vfn xs c.3)

-- A new area that overlaps no other keeps the address space sorted.
pub insert_area-Chain :
    (lo hi : ℕ) (new : Vmarea) (vs : List Vmarea)
    → Chain lo hi vs
    → Free new.start new.end vs
    → lo ≤ new.start
    → new.start < new.end
    → new.end ≤ hi
    → Chain lo hi (insert_area new vs)
unfolding insert_area
insert_area-Chain lo hi new [] c f a b d = (a, b, d, tt)
insert_area-Chain lo hi new (v ∷ vs) c f a b d =
    ground (arith, insert_area-Chain v.end hi new vs c.3 f.1)

-- After the insertion the pages of the new area are its own, and the others are as before.
pub lookup-insert_area :
    (lo hi : ℕ) (new : Vmarea) (vs : List Vmarea) (vfn : ℕ)
    → Chain lo hi vs
    → Free new.start new.end vs
    → vmmap_lookup (insert_area new vs) vfn
      ≡ (if ltb vfn new.end && leb new.start vfn then some new else vmmap_lookup vs vfn)
unfolding insert_area vmmap_lookup
lookup-insert_area lo hi new [] vfn c f = refl
lookup-insert_area lo hi new (v ∷ vs) vfn c f =
    ground (arith, lookup-insert_area v.end hi new vs vfn c.3 f.1)
