-- ===== src/Objects/Copied.antt =====
-- shadow_fillpage: the new frame gets a copy of what the chain shows.
use csci.Objects.Contents.{content-set_data, content-made, content-new, frame-made}
use csci.Sched.{update, has}
use csci.Objects.Filled.{get-none, zeroed, anon_lookuppage-Zeroed, pin-Pinned, made}
use csci.Prelude.{
  Option-cases, ◌⊎◌, length, inr, inl, ◌&&◌, Bool, ◌≢◌, Bool-cases, ◌==◌, arith, ltb, refl, sym,
  ==_refl, ◌∙◌, ap, [], ◌++◌, none, false, ◌∷◌, some, true, ◌≡◌, List, ℕ, Option,
}
use csci.Objects.Below.{first-none, seen-below}
use csci.Objects.Looked.{Starved, IsFresh, Sound, KeepsViews, IsChain-bottom, views-put_page}
use csci.Objects.Search.{Listed, first, search-below}
use csci.Objects.Views.{IsChain, content, frame_of, put_page, seen, top_of}
use csci.Objects.{
  anon_fillpage, pframe_alloc, get_new, anon_lookuppage, lookup_bottom, set_data, set_frames,
  search_below, copy_page, shadow_fillpage, set_busy, Memory, Got,
}
use csci.Prelude.Outcome.{Outcome, done}

pub record Copied (f o : ℕ) (os : List ℕ) (b page : ℕ) (m : Memory) (r : Outcome Got) : Type 0 where
  pub memory : Memory
  pub run : r ≡ done (Got.got f memory)
  pub frame : frame_of memory o page ≡ some f
  pub at_page : memory.pf_pagenum f ≡ page
  pub shows : memory.pf_data f ≡ seen (content m) (o ∷ os) b page
  pub views : KeepsViews m memory

-- The memory in which shadow_fillpage starts.
abbrev pub filling : ℕ → ℕ → ℕ → Memory → Memory
filling f o page m = set_busy f true (made f o page m)

chain-apart :
    (shadowed : ℕ → Option ℕ) (o : ℕ) (os : List ℕ) (b : ℕ) → IsChain shadowed (o ∷ os) b → b ≢ o
chain-apart shadowed o os b (s, chain) same =
    let bottom = IsChain-bottom shadowed os b chain in
    let both : some (top_of os b) ≡ none = sym s ∙ ap shadowed (sym same) ∙ bottom in
    ground (arith, both)

update-false : (k : ℕ → Bool) (g f : ℕ) → k f ≡ false → update k g false f ≡ false
update-false k g f e = elim (Bool-cases (f == g)) [ inl here ↦ rw (here) refl | inr on ↦ rw (on) e ]

-- A page that is written over does not matter.
put_page-over :
    (c : ℕ → ℕ → Option ℕ) (o b page x d e o' p' : ℕ)
    → put_page (put_page (put_page c o page x) b page e) o page d o' p'
      ≡ put_page (put_page c b page e) o page d o' p'
put_page-over c o b page x d e o' p' = elim (Bool-cases (o == o' && page == p')) [
  | inl here ↦ rw (here) refl
  | inr on ↦ rw (on) refl
]

not_equal-== : (a b : ℕ) → a ≢ b → (a == b) ≡ false
not_equal-== a b h = ground (arith, h)

not_member-== : (f g : ℕ) (fs : List ℕ) → has g (f ∷ fs) ≡ false → (f == g) ≡ false
not_member-== f g fs h = ground (arith, h)

-- The contents after both pages.
fill_zeros-views :
    (m : Memory) (c : ℕ → ℕ → Option ℕ) (o : ℕ) (os : List ℕ) (b page f : ℕ)
    → IsChain m.mmo_shadowed (o ∷ os) b
    → seen (content m) (o ∷ os) b page ≡ 0
    → has f m.pframe_hash ≡ false
    → frame_of (made f o page m) b page ≡ none
    → ((x y : ℕ) → c x y ≡ put_page (put_page (content (made f o page m)) b page 0) o page 0 x y)
    → (os' : List ℕ) (b' q : ℕ) → IsChain m.mmo_shadowed os' b'
    → seen c os' b' q ≡ seen (content m) os' b' q
unfolding seen
fill_zeros-views m c o os b page f chain shown out absent h os' b' q chain' =
    let off : (o == b) ≡ false =
      not_equal-== o b (λ e. chain-apart m.mmo_shadowed o os b chain (sym e)) in
    let absent_b : frame_of m b page ≡ none =
      sym (frame-made f o page m b page out ∙ rw (off) refl) ∙ absent in
    let zero : seen (content m) [] b page ≡ 0 = rw (seen, absent_b) refl in
    let c1 = put_page (content m) b page 0 in
    let v1 : (xs : List ℕ) (y p : ℕ)
        → IsChain m.mmo_shadowed xs y
        → seen c1 xs y p ≡ seen (content m) xs y p =
      views-put_page m.mmo_shadowed (content m) c1 [] b page
        (IsChain-bottom m.mmo_shadowed (o ∷ os) b chain) (λ o' p'. rw (zero) refl) in
    let made_c : content (made f o page m) ≡ put_page (content m) o page (m.pf_data f) =
      λ i x y. content-made f o page m x y out i in
    let shown1 : seen c1 (o ∷ os) b page ≡ 0 = v1 (o ∷ os) b page chain ∙ shown in
    views-put_page m.mmo_shadowed c1 c (o ∷ os) b page chain
      (λ x y.
        h x y
        ∙ ap (λ k. put_page (put_page k b page 0) o page 0 x y) made_c
        ∙ put_page-over (content m) o b page (m.pf_data f) 0 0 x y
        ∙ ap (λ d. put_page c1 o page d x y) (sym shown1))
      os' b' q chain'
    ∙ v1 os' b' q chain'

module _ (new : Memory → Option ℕ) (vnode_lookup : ℕ → ℕ → Memory → Outcome Got)
    (woken : List Memory) where
  -- An object of the chain has the page.
  fill_found-Copied :
      (m : Memory) (o : ℕ) (os : List ℕ) (b page fuel f g : ℕ)
      → has f m.pframe_hash ≡ false
      → Sound o os b m
      → frame_of m o page ≡ none
      → first (made f o page m) (os ++ b ∷ []) page ≡ some g
      → Listed
          (filling f o page m)
          (first (made f o page m) (os ++ b ∷ []) page)
          (search_below new vnode_lookup woken fuel o page (filling f o page m))
      → Copied f o os b page m
          (shadow_fillpage new vnode_lookup woken fuel o f (filling f o page m))
  unfolding shadow_fillpage copy_page
  fill_found-Copied m o os b page fuel f g out sound absent found s =
      let t = set_frames s.lists (filling f o page m) in
      let d = m.pf_data g in
      let used : s.lists.is_free f ≡ false = ap (λ k. k f) s.kept ∙ rw (==_refl f) refl in
      let p = pin-Pinned f (set_data f d t) used in
      let shown : seen (content m) (o ∷ os) b page ≡ d =
        seen-below f o page m os b out sound.chain absent ∙ rw (found) refl in
      record {
        memory = set_frames p.lists (set_data f d t);
        run = rw (shadow_fillpage, ==_refl f, s.run, found, copy_page, p.run) refl;
        frame = frame-made f o page m o page out ∙ rw (==_refl o, ==_refl page) refl;
        at_page = rw (==_refl f) refl;
        shows = rw (==_refl f) (sym shown);
        views =
            views-put_page m.mmo_shadowed (content m) (content (set_data f d t)) (o ∷ os) b page
              sound.chain (λ o' p'. rw (shown) (content-new f o page d m o' p' out));
      }

  -- No object of the chain has the page: the bottom object gets a page of zeros too.
  fill_zeros-Copied :
      (m : Memory) (o : ℕ) (os : List ℕ) (b page fuel f g : ℕ)
      → has f m.pframe_hash ≡ false
      → Sound o os b m
      → frame_of m o page ≡ none
      → first (made f o page m) (os ++ b ∷ []) page ≡ none
      → (s : Listed
          (filling f o page m)
          (first (made f o page m) (os ++ b ∷ []) page)
          (search_below new vnode_lookup woken fuel o page (filling f o page m)))
      → new (set_frames s.lists (filling f o page m)) ≡ some g
      → has g (f ∷ m.pframe_hash) ≡ false
      → Copied f o os b page m
          (shadow_fillpage new vnode_lookup woken fuel o f (filling f o page m))
  unfolding shadow_fillpage copy_page lookup_bottom
  fill_zeros-Copied m o os b page fuel f g out sound absent nowhere s gives out_g =
      let t = set_frames s.lists (filling f o page m) in
      let absent_b = first-none (made f o page m) os b page nowhere in
      let off : b ≢ o = chain-apart m.mmo_shadowed o os b sound.chain in
      let apart : (b == o) ≡ false = not_equal-== b o off in
      let counted : ltb 0 (t.mmo_refcount b) ≡ true = rw (apart) sound.counted_b in
      let z = anon_lookuppage-Zeroed new woken g b page t gives counted absent_b in
      let t2 = zeroed z.lists g b page t in
      let used_t : s.lists.is_free f ≡ false = ap (λ k. k f) s.kept ∙ rw (==_refl f) refl in
      let used : z.lists.is_free f ≡ false =
        ap (λ k. k f) z.kept ∙ update-false s.lists.is_free g f used_t in
      let p = pin-Pinned f (set_data f 0 t2) used in
      let shown : seen (content m) (o ∷ os) b page ≡ 0 =
        seen-below f o page m os b out sound.chain absent ∙ rw (nowhere) refl in
      let framed : frame_of t o page ≡ some f =
        frame-made f o page m o page out ∙ rw (==_refl o, ==_refl page) refl in
      let other : (f == g) ≡ false = not_member-== f g m.pframe_hash out_g in
      let framed2 : frame_of t2 o page ≡ some f =
        frame-made g b page t o page out_g ∙ rw (apart) framed in
      record {
        memory = set_frames p.lists (set_data f 0 t2);
        run =
            rw
              (
                shadow_fillpage,
                ==_refl f,
                s.run,
                nowhere,
                sound.bottom,
                lookup_bottom,
                sound.anonymous,
                ==_refl f,
                z.run,
                copy_page,
                ==_refl g,
                p.run,
              )
              refl;
        frame = framed2;
        at_page = rw (other, ==_refl f) refl;
        shows = rw (==_refl f) (sym shown);
        views = λ os' b' q i.
            fill_zeros-views m (content (set_data f 0 t2)) o os b page f sound.chain shown out
              absent_b
              (λ x y.
                content-set_data f o page 0 t2 x y framed2
                ∙ ap (λ c. put_page c o page 0 x y) (λ j v w. content-new g b page 0 t v w out_g j))
              os' b' q i;
      }

  pub fill-Copied :
      (m : Memory) (o : ℕ) (os : List ℕ) (b page fuel f : ℕ)
      → IsFresh new
      → new m ≡ some f
      → Sound o os b m
      → frame_of m o page ≡ none
      → ltb (length (o ∷ os)) fuel ≡ true
      → Copied f o os b page m
          (shadow_fillpage new vnode_lookup woken fuel o f (filling f o page m))
        ⊎ Starved new (shadow_fillpage new vnode_lookup woken fuel o f (filling f o page m))
  unfolding shadow_fillpage lookup_bottom anon_lookuppage get_new pframe_alloc first
  fill-Copied m o os b page fuel f fresh gives sound absent enough =
      let out = fresh m f gives in
      let t1 = filling f o page m in
      let s : Listed t1 (first (made f o page m) (os ++ b ∷ []) page)
          (search_below new vnode_lookup woken fuel o page t1) =
        search-below new vnode_lookup woken t1 o os b page fuel sound.chain enough in
      elim (Option-cases (first (made f o page m) (os ++ b ∷ []) page)) [
        | inr (g, found) ↦ inl (fill_found-Copied m o os b page fuel f g out sound absent found s)
        | inl nowhere ↦
            let t = set_frames s.lists t1 in
            elim (Option-cases (new t)) [
              | inr (g, more) ↦ inl (
                  fill_zeros-Copied m o os b page fuel f g out sound absent nowhere s more
                    (fresh t g more))
              | inl dry ↦
                  let absent_b = first-none (made f o page m) os b page nowhere in
                  let fill = get-none new (anon_fillpage new) woken b page t absent_b in
                  inr (record {
                    memory = t;
                    run =
                        rw
                          (
                            shadow_fillpage,
                            ==_refl f,
                            s.run,
                            nowhere,
                            sound.bottom,
                            lookup_bottom,
                            sound.anonymous,
                            ==_refl f,
                            anon_lookuppage,
                            fill,
                            get_new,
                            pframe_alloc,
                            dry,
                          )
                          refl;
                    at = t;
                    starved = dry;
                    frames_same = refl;
                    hash_same = refl;
                    data_same = refl;
                  })
            ]
      ]
