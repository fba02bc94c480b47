-- ===== src/Objects/Views.antt =====
-- The pages of memory objects, and what a chain of shadow objects shows of them.
use csci.Prelude.{
  ◌∙◌, ap, sym, inr, inl, refl, Bool-cases, arith, ◌&&◌, ◌==◌, ◌≢◌, true, [], some, if◌then◌else◌,
  false, ◌≡◌, ◌∷◌, none, Option, ℕ, List,
}
use csci.Objects.{find_frame, Memory}
use csci.Sched.{has}
use mathlib.Core.Option

abbrev pub frame_of : Memory → ℕ → ℕ → Option ℕ
frame_of m o page = find_frame m.pf_obj m.pf_pagenum m.pframe_hash o page

-- The contents of a page of an object, if it is resident.
abbrev pub content : Memory → ℕ → ℕ → Option ℕ
content m o page = Option.map m.pf_data (frame_of m o page)

-- The first object of a chain.
abbrev pub top_of : List ℕ → ℕ → ℕ
top_of [] b = b
top_of (o ∷ os) b = o

-- The shadow objects `os` stand one above the other, on the object `b`, which shadows none.
abbrev pub IsChain : (ℕ → Option ℕ) → List ℕ → ℕ → Type 0
IsChain shadowed [] b = shadowed b ≡ none
IsChain shadowed (o ∷ os) b = (shadowed o ≡ some (top_of os b)) × IsChain shadowed os b

-- What the chain shows of a page, where `c` are the contents: that of the first object that has
-- the page, and zeros if none has it.
unfoldable pub seen : (ℕ → ℕ → Option ℕ) → List ℕ → ℕ → ℕ → ℕ
seen c [] b page = elim (c b page) [ none ↦ 0 | some d ↦ d ]
seen c (o ∷ os) b page =
    let below = seen c os b page in elim (c o page) [ none ↦ below | some d ↦ d ]

-- The contents after a page has come to an object.
abbrev pub put_page : (ℕ → ℕ → Option ℕ) → ℕ → ℕ → ℕ → ℕ → ℕ → Option ℕ
put_page c o page d o' p' = if o == o' && page == p' then some d else c o' p'

-- A page that the chains of its object showed anyhow does not change what any chain shows.
pub seen-put_page :
    (shadowed : ℕ → Option ℕ) (c : ℕ → ℕ → Option ℕ) (o page d : ℕ)
    → ((os : List ℕ) (b : ℕ) → IsChain shadowed os b → top_of os b ≡ o → seen c os b page ≡ d)
    → (os : List ℕ) (b p : ℕ) → IsChain shadowed os b
    → seen (put_page c o page d) os b p ≡ seen c os b p
unfolding seen
seen-put_page shadowed c o page d h [] b p chain = elim (Bool-cases (o == b && page == p)) [
  | inl here ↦
      let here_o : b ≡ o = ground (arith, here) in
      let here_p : p ≡ page = ground (arith, here) in
      let before : seen c [] b p ≡ d = rw (here_p) (h [] b chain here_o) in
      rw (seen, here) (sym before)
  | inr on ↦ rw (seen, on) refl
]
seen-put_page shadowed c o page d h (x ∷ os) b p (s, chain) =
    elim (Bool-cases (o == x && page == p)) [
      | inl here ↦
          let here_o : x ≡ o = ground (arith, here) in
          let here_p : p ≡ page = ground (arith, here) in
          let before : seen c (x ∷ os) b p ≡ d = rw (here_p) (h (x ∷ os) b (s, chain) here_o) in
          rw (seen, here) (sym before)
      | inr on ↦
          let below = seen-put_page shadowed c o page d h os b p chain in
          rw (seen, on) (ap (λ v. elim (c x p) [ none ↦ v | some e ↦ e ]) below)
    ]

-- Two chains with one top show the same.
pub seen-same_top :
    (shadowed : ℕ → Option ℕ) (c : ℕ → ℕ → Option ℕ) (os : List ℕ) (b : ℕ) (os' : List ℕ) (b' p : ℕ)
    → IsChain shadowed os b
    → IsChain shadowed os' b'
    → top_of os b ≡ top_of os' b'
    → seen c os b p ≡ seen c os' b' p
unfolding seen
seen-same_top shadowed c [] b [] b' p i j e = rw (e) refl
seen-same_top shadowed c [] b (x ∷ os') b' p i (s, j) e = absurd (cc)
seen-same_top shadowed c (x ∷ os) b [] b' p (s, i) j e = absurd (cc)
seen-same_top shadowed c (x ∷ os) b (y ∷ os') b' p (s, i) (t, j) e =
    let one : x ≡ y = e in
    let shadows : some (top_of os b) ≡ some (top_of os' b') = sym s ∙ ap shadowed one ∙ t in
    let below = seen-same_top shadowed c os b os' b' p i j (cc) in
    rw (seen, one) (ap (λ v. elim (c y p) [ none ↦ v | some e ↦ e ]) below)

pub find-member :
    (obj page : ℕ → ℕ) (fs : List ℕ) (o p f : ℕ)
    → find_frame obj page fs o p ≡ some f
    → (has f fs ≡ true) × (obj f ≡ o) × (page f ≡ p)
unfolding find_frame
find-member obj page [] o p f e = absurd (ground (arith, e))
find-member obj page (g ∷ fs) o p f e = elim (Bool-cases (obj g == o && page g == p)) [
  | inl here ↦ ground (arith, e, here)
  | inr on ↦
      let rest : find_frame obj page fs o p ≡ some f = ground (arith, e, on) in
      let (h, i, j) = find-member obj page fs o p f rest in (ground (arith, h), i, j)
]

-- A search does not see what happens to other frames.
pub find-frame_of :
    (obj page obj' page' : ℕ → ℕ) (f : ℕ) (fs : List ℕ) (o p : ℕ)
    → has f fs ≡ false
    → ((g : ℕ) → g ≢ f → obj' g ≡ obj g)
    → ((g : ℕ) → g ≢ f → page' g ≡ page g)
    → find_frame obj' page' fs o p ≡ find_frame obj page fs o p
unfolding find_frame
find-frame_of obj page obj' page' f [] o p out h i = refl
find-frame_of obj page obj' page' f (g ∷ fs) o p out h i =
    let other : g ≢ f = λ e. absurd (ground (arith, out, e)) in
    rw (h g other, i g other, find-frame_of obj page obj' page' f fs o p (ground (arith, out)) h i)
      refl

-- A map of what a search finds sees only the frame found.
pub map-other :
    (of of' : ℕ → ℕ) (f : ℕ) (r : Option ℕ)
    → ¬ (r ≡ some f)
    → ((g : ℕ) → g ≢ f → of' g ≡ of g)
    → Option.map of' r ≡ Option.map of r
map-other of of' f none out h = refl
map-other of of' f (some g) out h = ap some (h g (λ e. out (ap some e)))
