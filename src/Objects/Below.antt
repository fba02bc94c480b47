-- ===== src/Objects/Below.antt =====
-- What a new frame of an object does to the search below it.
use csci.Objects.Search.{first-seen, first}
use csci.Objects.Contents.{seen-not_in, chain-length, content-made}
use csci.Objects.Filled.{made}
use csci.Sched.{has}
use csci.Prelude.{
  ap, refl, inr, arith, ◌∙◌, inl, sym, true, some, Option-cases, [], length, ltb, ◌++◌, none, ◌∷◌,
  false, ◌≡◌, List, ℕ,
}
use csci.Objects.Views.{IsChain, content, frame_of, put_page, seen, top_of}
use csci.Objects.{Memory}

-- A new frame of `o` does not show below `o`.
pub below-made :
    (f o page : ℕ) (m : Memory) (os : List ℕ) (b p : ℕ)
    → has f m.pframe_hash ≡ false
    → IsChain m.mmo_shadowed (o ∷ os) b
    → seen (content (made f o page m)) os b p ≡ seen (content m) os b p
below-made f o page m os b p out (s, chain) =
    let same : content (made f o page m) ≡ put_page (content m) o page (m.pf_data f) =
      λ i o' p'. content-made f o page m o' p' out i in
    let longer : (xs : List ℕ) (y : ℕ)
        → IsChain m.mmo_shadowed xs y
        → top_of xs y ≡ o
        → ltb (length os) (length xs) ≡ true =
      λ xs y i e.
        let n : length xs ≡ length (o ∷ os) =
          chain-length m.mmo_shadowed xs y (o ∷ os) b i (s, chain) e in
        ground (arith, n) in
    ap (λ c. seen c os b p) same
    ∙ seen-not_in m.mmo_shadowed (content m) o page (m.pf_data f) (length os) longer os b p chain
        (ground (arith))

pub first-none :
    (m : Memory) (os : List ℕ) (b page : ℕ)
    → first m (os ++ b ∷ []) page ≡ none
    → frame_of m b page ≡ none
unfolding first
first-none m [] b page e = elim (Option-cases (frame_of m b page)) [
  | inl h ↦ h
  | inr (f, h) ↦
      absurd (let found : some f ≡ none = sym (rw (first, h) refl) ∙ e in ground (arith, found))
]
first-none m (o ∷ os) b page e = elim (Option-cases (frame_of m o page)) [
  | inl h ↦ first-none m os b page (sym (rw (first, h) refl) ∙ e)
  | inr (f, h) ↦
      absurd (let found : some f ≡ none = sym (rw (first, h) refl) ∙ e in ground (arith, found))
]

-- What the chain shows of a page that its first object does not have, by the search below that object.
pub seen-below :
    (f o page : ℕ) (m : Memory) (os : List ℕ) (b : ℕ)
    → has f m.pframe_hash ≡ false
    → IsChain m.mmo_shadowed (o ∷ os) b
    → frame_of m o page ≡ none
    → seen (content m) (o ∷ os) b page
      ≡ elim (first (made f o page m) (os ++ b ∷ []) page) [ none ↦ 0 | some g ↦ m.pf_data g ]
unfolding seen
seen-below f o page m os b out chain absent =
    rw (seen, absent)
      (sym (below-made f o page m os b page out chain) ∙ first-seen (made f o page m) os b page)
