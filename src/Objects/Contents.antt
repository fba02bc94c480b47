-- ===== src/Objects/Contents.antt =====
-- What allocating a frame and writing into it do to the contents of the pages.
use csci.Sched.{update, has}
use csci.Prelude.{
  ◌∙◌, sym, [], none, ap, ◌∷◌, refl, inr, ==_refl, arith, inl, ◌&&◌, true, ◌==◌, Bool-cases, length,
  if◌then◌else◌, ltb, false, some, List, ◌≡◌, Option, ℕ,
}
use csci.Objects.Filled.{made}
use csci.Objects.Views.{
  content, find-frame_of, find-member, frame_of, map-other, put_page, seen, IsChain, top_of,
}
use csci.Objects.{Memory, find_frame, set_data}

pub frame-made :
    (f o page : ℕ) (m : Memory) (o' p' : ℕ)
    → has f m.pframe_hash ≡ false
    → frame_of (made f o page m) o' p'
      ≡ (if o == o' && page == p' then some f else frame_of m o' p')
unfolding find_frame
frame-made f o page m o' p' out =
    let rest : find_frame (update m.pf_obj f o) (update m.pf_pagenum f page) m.pframe_hash o' p'
        ≡ frame_of m o' p' =
      find-frame_of m.pf_obj m.pf_pagenum (update m.pf_obj f o) (update m.pf_pagenum f page) f
        m.pframe_hash o' p' out (λ g h. ground (arith, h)) (λ g h. ground (arith, h)) in
    rw (find_frame, ==_refl f, rest) refl

-- The contents of a frame that a page has change for that page.
pub content-set_data :
    (f o page d : ℕ) (m : Memory) (o' p' : ℕ)
    → frame_of m o page ≡ some f
    → content (set_data f d m) o' p' ≡ put_page (content m) o page d o' p'
content-set_data f o page d m o' p' e = elim (Bool-cases (o == o' && page == p')) [
  | inl here ↦
      let here_o : o' ≡ o = ground (arith, here) in
      let here_p : p' ≡ page = ground (arith, here) in rw (here, here_o, here_p, e, ==_refl f) refl
  | inr on ↦
      let other : ¬ (frame_of m o' p' ≡ some f) = λ h.
        let (x, i, j) = find-member m.pf_obj m.pf_pagenum m.pframe_hash o page f e in
        let (y, k, l) = find-member m.pf_obj m.pf_pagenum m.pframe_hash o' p' f h in
        absurd (ground (arith, on, i, j, k, l)) in
      rw (on) (
        map-other m.pf_data (update m.pf_data f d) f (frame_of m o' p') other
          (λ g h. ground (arith, h)))
]

-- A new frame into which a page is written.
pub content-new :
    (f o page d : ℕ) (m : Memory) (o' p' : ℕ)
    → has f m.pframe_hash ≡ false
    → content (set_data f d (made f o page m)) o' p' ≡ put_page (content m) o page d o' p'
content-new f o page d m o' p' out = elim (Bool-cases (o == o' && page == p')) [
  | inl here ↦ rw (here, frame-made f o page m o' p' out, here, ==_refl f) refl
  | inr on ↦
      let other : ¬ (frame_of m o' p' ≡ some f) = λ h.
        let (y, k, l) = find-member m.pf_obj m.pf_pagenum m.pframe_hash o' p' f h in
        absurd (ground (arith, out, y)) in
      rw (on, frame-made f o page m o' p' out, on)
        (map-other m.pf_data (update m.pf_data f d) f (frame_of m o' p') other
          (λ g h. ground (arith, h)))
]

-- An object of which every chain is longer does not show in a chain.
pub seen-not_in :
    (shadowed : ℕ → Option ℕ) (c : ℕ → ℕ → Option ℕ) (o page d n : ℕ)
    → ((os : List ℕ) (b : ℕ) → IsChain shadowed os b → top_of os b ≡ o → ltb n (length os) ≡ true)
    → (os : List ℕ) (b p : ℕ) → IsChain shadowed os b
    → ltb n (length os) ≡ false
    → seen (put_page c o page d) os b p ≡ seen c os b p
unfolding seen
seen-not_in shadowed c o page d n h [] b p chain short = elim (Bool-cases (o == b)) [
  | inl here ↦ absurd (ground (arith, h [] b chain (ground (arith, here)), short))
  | inr on ↦ rw (seen, on) refl
]
seen-not_in shadowed c o page d n h (x ∷ os) b p (s, chain) short = elim (Bool-cases (o == x)) [
  | inl here ↦ absurd (ground (arith, h (x ∷ os) b (s, chain) (ground (arith, here)), short))
  | inr on ↦
      let below = seen-not_in shadowed c o page d n h os b p chain (ground (arith, short)) in
      rw (seen, on) (ap (λ v. elim (c x p) [ none ↦ v | some e ↦ e ]) below)
]

pub chain-length :
    (shadowed : ℕ → Option ℕ) (os : List ℕ) (b : ℕ) (os' : List ℕ) (b' : ℕ)
    → IsChain shadowed os b
    → IsChain shadowed os' b'
    → top_of os b ≡ top_of os' b'
    → length os ≡ length os'
chain-length shadowed [] b [] b' i j e = refl
chain-length shadowed [] b (x ∷ os') b' i (s, j) e = absurd (cc)
chain-length shadowed (x ∷ os) b [] b' (s, i) j e = absurd (cc)
chain-length shadowed (x ∷ os) b (y ∷ os') b' (s, i) (t, j) e =
    let one : x ≡ y = e in
    let shadows : some (top_of os b) ≡ some (top_of os' b') = sym s ∙ ap shadowed one ∙ t in
    let below = chain-length shadowed os b os' b' i j (cc) in rw (below) refl

pub content-made :
    (f o page : ℕ) (m : Memory) (o' p' : ℕ)
    → has f m.pframe_hash ≡ false
    → content (made f o page m) o' p' ≡ put_page (content m) o page (m.pf_data f) o' p'
content-made f o page m o' p' out = elim (Bool-cases (o == o' && page == p')) [
  | inl here ↦ rw (here, frame-made f o page m o' p' out, here) refl
  | inr on ↦ rw (on, frame-made f o page m o' p' out, on) refl
]
