-- ===== src/Vmmap/Translate.antt =====
-- What an address space promises: which page of which object stands behind a virtual page, and with
-- which protection. The routines of vmmap.c are proved against this view.
use csci.Prelude.{
  refl, ◌⊎◌, ◌||◌, some, ltb, ◌&&◌, leb, ap, if◌then◌else◌, [], none, arith, ◌≡◌, ◌^◌, ◌++◌, true,
  ◌≤◌, ◌<◌, ◌∷◌, ℕ, Option, List,
}
use mathlib.Core.Option
use csci.Vmmap.{Vmarea, Overlap, overlap, upper_part, shorten, move_start, vmmap_lookup}
use csci.Vmmap.Sorted.{Chain-mono, Chain, lookup_below}
use csci.Prelude.Words.{add32, sub32}

pub record Page : Type 0 where
  pub obj : Option ℕ
  pub pagenum : ℕ
  pub prot : ℕ
  pub flags : ℕ

-- `pagenum` is computed as vmmap_read and vmmap_write do.
unfoldable pub page_of : Vmarea → ℕ → Page
page_of v vfn = record {
  obj = v.obj;
  pagenum = sub32 (add32 v.off vfn) v.start;
  prot = v.prot;
  flags = v.flags;
}

unfoldable pub translate : List Vmarea → ℕ → Option Page
unfolding vmmap_lookup page_of
translate vs vfn = Option.map (λ v. page_of v vfn) (vmmap_lookup vs vfn)

-- What vmmap_remove makes of one area.
unfoldable pub cut : ℕ → ℕ → Vmarea → List Vmarea
unfolding overlap shorten upper_part move_start
cut lo hi v = elim (overlap lo hi v) [
  | Overlap.inside ↦ shorten lo v ∷ record (upper_part hi v) { attached = true } ∷ []
  | Overlap.over_end ↦ shorten lo v ∷ []
  | Overlap.over_start ↦ move_start hi v ∷ []
  | Overlap.covered ↦ []
  | Overlap.apart ↦ v ∷ []
]

unfoldable pub cut_all : ℕ → ℕ → List Vmarea → List Vmarea
unfolding cut
cut_all lo hi [] = []
cut_all lo hi (v ∷ vs) = cut lo hi v ++ cut_all lo hi vs

module _ (hi vfn : ℕ) (v : Vmarea) (a : v.start ≤ hi) (b : hi ≤ vfn) (c : vfn < 2 ^ 32) where
  split_pagenum :
      sub32 (add32 (sub32 (add32 v.off hi) v.start) vfn) hi ≡ sub32 (add32 v.off vfn) v.start
  unfolding add32 sub32
  split_pagenum = omega arith

  move_pagenum :
      sub32 (add32 (add32 v.off (sub32 hi v.start)) vfn) hi ≡ sub32 (add32 v.off vfn) v.start
  unfolding add32 sub32
  move_pagenum = omega arith

  numbered : ℕ → Page
  numbered n = record { obj = v.obj; pagenum = n; prot = v.prot; flags = v.flags }

  page_of-upper_part : page_of (record (upper_part hi v) { attached = true }) vfn ≡ page_of v vfn
  unfolding page_of upper_part numbered
  page_of-upper_part = ap numbered split_pagenum

  page_of-move_start : page_of (move_start hi v) vfn ≡ page_of v vfn
  unfolding page_of move_start numbered
  page_of-move_start = ap numbered move_pagenum

pub translate_below :
    (p q vfn : ℕ) (vs : List Vmarea) → Chain p q vs → vfn < p → translate vs vfn ≡ none
unfolding translate
translate_below p q vfn vs c h = rw (lookup_below q p vfn vs c h)

pub translate-cons :
    (v : Vmarea) (vs : List Vmarea) (vfn : ℕ)
    → translate (v ∷ vs) vfn
      ≡ (if ltb vfn v.end && leb v.start vfn then some (page_of v vfn) else translate vs vfn)
unfolding translate
translate-cons v vs vfn = ground arith

pub translate-nil : (vfn : ℕ) → translate [] vfn ≡ none
unfolding translate
translate-nil vfn = refl

-- What each case of vmmap_remove says of the area and the range.
abbrev pub OverlapFacts : ℕ → ℕ → Vmarea → Overlap → Type 0
OverlapFacts lo hi v Overlap.inside = (hi < v.end) × (v.start < lo)
OverlapFacts lo hi v Overlap.over_end = (v.end ≤ hi) × (v.start < lo) × (lo < v.end)
OverlapFacts lo hi v Overlap.over_start = (hi < v.end) × (lo ≤ v.start) × (v.start < hi)
OverlapFacts lo hi v Overlap.covered = (v.end ≤ hi) × (lo ≤ v.start)
OverlapFacts lo hi v Overlap.apart = (v.end ≤ lo) ⊎ (hi ≤ v.start)

pub overlap-OverlapFacts :
    (lo hi : ℕ) (v : Vmarea) (o : Overlap)
    → lo ≤ hi
    → v.start < v.end
    → overlap lo hi v ≡ o
    → OverlapFacts lo hi v o
unfolding overlap
overlap-OverlapFacts lo hi v Overlap.inside h k e = ground arith
overlap-OverlapFacts lo hi v Overlap.over_end h k e = ground arith
overlap-OverlapFacts lo hi v Overlap.over_start h k e = ground arith
overlap-OverlapFacts lo hi v Overlap.covered h k e = ground arith
overlap-OverlapFacts lo hi v Overlap.apart h k e = ground arith

-- The pages that one area keeps.
abbrev kept : ℕ → ℕ → ℕ → Vmarea → Option Page → Option Page
kept lo hi vfn v other =
    if (ltb vfn v.end && leb v.start vfn) && (ltb vfn lo || leb hi vfn)
    then some (page_of v vfn)
    else other

page_of-shorten : (lo vfn : ℕ) (v : Vmarea) → page_of (shorten lo v) vfn ≡ page_of v vfn
unfolding page_of shorten
page_of-shorten lo vfn v = refl

translate-cut :
    (lo hi vfn : ℕ) (v : Vmarea) (ys : List Vmarea)
    → lo ≤ hi
    → v.start < v.end
    → vfn < 2 ^ 32
    → translate (cut lo hi v ++ ys) vfn ≡ kept lo hi vfn v (translate ys vfn)
unfolding cut
translate-cut lo hi vfn v ys h k b = go (overlap lo hi v) refl
  where
    up : Vmarea
    up = record (upper_part hi v) { attached = true }

    go :
        (o : Overlap)
        → overlap lo hi v ≡ o
        → translate (cut lo hi v ++ ys) vfn ≡ kept lo hi vfn v (translate ys vfn)
    go Overlap.inside e =
        let f = overlap-OverlapFacts lo hi v Overlap.inside h k e in
        rw (e, cut)
          (ground (
            arith,
            translate-cons (shorten lo v) (up ∷ ys) vfn,
            translate-cons up ys vfn,
            page_of-shorten lo vfn v,
            page_of-upper_part hi vfn v,
          ))
    go Overlap.over_end e =
        let f = overlap-OverlapFacts lo hi v Overlap.over_end h k e in
        rw (e, cut) (ground (arith, translate-cons (shorten lo v) ys vfn, page_of-shorten lo vfn v))
    go Overlap.over_start e =
        let f = overlap-OverlapFacts lo hi v Overlap.over_start h k e in
        rw (e, cut)
          (ground (arith, translate-cons (move_start hi v) ys vfn, page_of-move_start hi vfn v))
    go Overlap.covered e =
        let f = overlap-OverlapFacts lo hi v Overlap.covered h k e in rw (e, cut) (ground arith)
    go Overlap.apart e =
        let f = overlap-OverlapFacts lo hi v Overlap.apart h k e in
        rw (e, cut) (ground (arith, translate-cons v ys vfn))

-- Pages of the removed range are unmapped, and the others keep their page.
pub translate-cut_all :
    (lo hi p q vfn : ℕ) (vs : List Vmarea)
    → Chain p q vs
    → lo ≤ hi
    → vfn < 2 ^ 32
    → translate (cut_all lo hi vs) vfn
      ≡ (if leb lo vfn && ltb vfn hi then none else translate vs vfn)
unfolding cut_all
translate-cut_all lo hi p q vfn [] c h b = ground (arith, translate-nil vfn)
translate-cut_all lo hi p q vfn (v ∷ vs) c h b = ground (
  arith,
  translate-cut lo hi vfn v (cut_all lo hi vs) h c.1 b,
  translate-cut_all lo hi v.end q vfn vs c.3 h b,
  translate-cons v vs vfn,
  translate_below v.end q vfn vs c.3,
)

-- What is left is still sorted.
pub cut_all-Chain :
    (lo hi p q : ℕ) (vs : List Vmarea) → Chain p q vs → lo ≤ hi → Chain p q (cut_all lo hi vs)
unfolding cut_all
cut_all-Chain lo hi p q [] c h = tt
cut_all-Chain lo hi p q (v ∷ vs) c h = ground (
  arith,
  cut_all-Chain lo hi v.end q vs c.3 h,
  Chain-mono q v.end p (cut_all lo hi vs),
  Chain-mono q v.end lo (cut_all lo hi vs),
)
