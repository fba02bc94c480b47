-- ===== src/Objects/Search.antt =====
-- The two loops along a chain of shadow objects find the first object that has the page.
use mathlib.Core.Path.{subst}
use csci.Sched.{has, erase}
use csci.Pframe.{Pframes}
use csci.Objects.Views.{find-member, content, seen, IsChain, frame_of, top_of}
use csci.Objects.{
  is_pinned, find_frame, Got, Memory, pframe_get_resident, search_below, search_from, set_frames,
  used_last,
}
use csci.Prelude.Outcome.{Outcome, done}
use csci.Prelude.{
  ap, ◌∙◌, sym, zero, Option-cases, suc, arith, ◌++◌, refl, inr, inl, true, length, Bool-cases, ◌≡◌,
  ltb, ◌∷◌, List, Option, none, some, ℕ, [],
}

-- The frame of the page in the first of the objects that has it.
unfoldable pub first : Memory → List ℕ → ℕ → Option ℕ
unfolding find_frame
first m [] page = none
first m (o ∷ os) page =
    let rest = first m os page in elim (frame_of m o page) [ none ↦ rest | some f ↦ some f ]

-- A result with `a`, where only the lists of frames have changed.
pub record Listed {ℓ} {A : Type ℓ} (m : Memory) (a : A) (r : Outcome (A × Memory)) : Type ℓ where
  pub lists : Pframes
  pub kept : lists.is_free ≡ m.frames.is_free
  pub run : r ≡ done (a, set_frames lists m)

used_last-free : (f : ℕ) (m : Memory) → (used_last f m).frames.is_free ≡ m.frames.is_free
unfolding erase
used_last-free f m = elim (Bool-cases (is_pinned f m)) [ inl h ↦ rw (h) refl | inr h ↦ rw (h) refl ]

pub resident-none :
    (m : Memory) (o page : ℕ) → frame_of m o page ≡ none → pframe_get_resident o page m ≡ (none, m)
unfolding pframe_get_resident
resident-none m o page e = rw (pframe_get_resident, e) refl

pub resident-some :
    (m : Memory) (o page f : ℕ)
    → frame_of m o page ≡ some f
    → pframe_get_resident o page m ≡ (some f, used_last f m)
unfolding pframe_get_resident
resident-some m o page f e = rw (pframe_get_resident, e) refl

pub search-first :
    (new : Memory → Option ℕ) (vnode_lookup : ℕ → ℕ → Memory → Outcome Got) (woken : List Memory)
    (m : Memory) (os : List ℕ) (b page fuel : ℕ)
    → IsChain m.mmo_shadowed os b
    → ltb (length os) fuel ≡ true
    → Listed m (first m os page) (search_from new vnode_lookup woken fuel (top_of os b) page m)
unfolding search_from first
search-first new vnode_lookup woken m os b page zero chain enough = absurd (ground (arith, enough))
search-first new vnode_lookup woken m [] b page (suc fuel) chain enough = record {
  lists = m.frames;
  kept = refl;
  run = rw (search_from, chain) refl;
}
search-first new vnode_lookup woken m (o ∷ os) b page (suc fuel) (s, chain) enough =
    elim (Option-cases (frame_of m o page)) [
      | inr (f, e) ↦ record {
        lists = (used_last f m).frames;
        kept = used_last-free f m;
        run =
            rw (search_from, first, s, e)
              (ap (λ r. done (some f, r.1)) (resident-some m o page f e));
      }
      | inl e ↦
          let below =
            search-first new vnode_lookup woken m os b page fuel chain (ground (arith, enough)) in
          record {
            lists = below.lists;
            kept = below.kept;
            run =
                rw (search_from, first, s, e)
                  (subst
                    (λ r.
                      search_from new vnode_lookup woken fuel (top_of os b) page r.1
                      ≡ done (first m os page, set_frames below.lists m))
                    (sym (resident-none m o page e)) below.run);
          }
    ]

pub search-below :
    (new : Memory → Option ℕ) (vnode_lookup : ℕ → ℕ → Memory → Outcome Got) (woken : List Memory)
    (m : Memory) (o : ℕ) (os : List ℕ) (b page fuel : ℕ)
    → IsChain m.mmo_shadowed (o ∷ os) b
    → ltb (length (o ∷ os)) fuel ≡ true
    → Listed m (first m (os ++ b ∷ []) page) (search_below new vnode_lookup woken fuel o page m)
unfolding search_below first
search-below new vnode_lookup woken m o os b page zero chain enough =
    absurd (ground (arith, enough))
search-below new vnode_lookup woken m o [] b page (suc zero) chain enough =
    absurd (ground (arith, enough))
search-below new vnode_lookup woken m o [] b page (suc (suc fuel)) (s, chain) enough =
    elim (Option-cases (frame_of m b page)) [
      | inr (f, e) ↦ record {
        lists = (used_last f m).frames;
        kept = used_last-free f m;
        run =
            rw (search_below, first, s, e)
              (ap (λ r. done (some f, r.1)) (resident-some m b page f e));
      }
      | inl e ↦ record {
        lists = m.frames;
        kept = refl;
        run =
            let last : search_below new vnode_lookup woken (suc fuel) b page m ≡ done (none, m) =
              rw (search_below, chain) refl in
            rw (search_below, first, s, e)
              (subst
                (λ r. search_below new vnode_lookup woken (suc fuel) b page r.1 ≡ done (none, m))
                (sym (resident-none m b page e)) last);
      }
    ]
search-below new vnode_lookup woken m o (x ∷ os) b page (suc fuel) (s, chain) enough =
    elim (Option-cases (frame_of m x page)) [
      | inr (f, e) ↦ record {
        lists = (used_last f m).frames;
        kept = used_last-free f m;
        run =
            rw (search_below, first, s, e)
              (ap (λ r. done (some f, r.1)) (resident-some m x page f e));
      }
      | inl e ↦
          let below =
            search-below new vnode_lookup woken m x os b page fuel chain (ground (arith, enough)) in
          record {
            lists = below.lists;
            kept = below.kept;
            run =
                rw (search_below, first, s, e)
                  (subst
                    (λ r.
                      search_below new vnode_lookup woken fuel x page r.1
                      ≡ done (first m (os ++ b ∷ []) page, set_frames below.lists m))
                    (sym (resident-none m x page e)) below.run);
          }
    ]

-- What the first object with the page has is what the chain shows.
pub first-seen :
    (m : Memory) (os : List ℕ) (b page : ℕ)
    → seen (content m) os b page
      ≡ elim (first m (os ++ b ∷ []) page) [ none ↦ 0 | some f ↦ m.pf_data f ]
unfolding first seen
first-seen m [] b page = elim (Option-cases (frame_of m b page)) [
  | inl e ↦ rw (seen, first, e) refl
  | inr (g, e) ↦ rw (seen, first, e) refl
]
first-seen m (o ∷ os) b page = elim (Option-cases (frame_of m o page)) [
  | inl e ↦ rw (seen, first, e) (first-seen m os b page)
  | inr (g, e) ↦ rw (seen, first, e) refl
]

-- A frame that is found is one of the hash, with the page number.
pub first-member :
    (m : Memory) (os : List ℕ) (page f : ℕ)
    → first m os page ≡ some f
    → (has f m.pframe_hash ≡ true) × (m.pf_pagenum f ≡ page)
unfolding first
first-member m [] page f e = absurd (ground (arith, e))
first-member m (o ∷ os) page f e = elim (Option-cases (frame_of m o page)) [
  | inl none_here ↦
      let below : first m os page ≡ some f = sym (rw (first, none_here) refl) ∙ e in
      first-member m os page f below
  | inr (g, here) ↦
      let found : some g ≡ some f = sym (rw (first, here) refl) ∙ e in
      let (h, i, j) = find-member m.pf_obj m.pf_pagenum m.pframe_hash o page f (here ∙ found) in
      (h, j)
]
