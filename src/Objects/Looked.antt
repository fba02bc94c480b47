-- ===== src/Objects/Looked.antt =====
-- shadow_lookuppage: the frame that it gives, and what the chains of objects show afterwards.
use csci.Objects.Contents.{content-new}
use csci.Objects.Filled.{zeroed, anon_lookuppage-Zeroed, get-none, get-some}
use csci.Sched.{has}
use csci.Paging.{Errno}
use csci.Objects.Search.{Listed, first-seen, first-member, search-first, first}
use csci.Prelude.{
  arith, sym, refl, inr, ◌⊎◌, length, ==_refl, inl, ltb, ◌∙◌, Option-cases, true, false, none, some,
  [], ap, Bool, ◌≡◌, ◌∷◌, ◌++◌, Option, List, ℕ,
}
use csci.Objects.Views.{
  find-member, seen-same_top, seen-put_page, IsChain, content, frame_of, put_page, seen, top_of,
}
use csci.Objects.{
  used_last, anon_fillpage, search_from, pframe_alloc, get_new, anon_lookuppage, set_frames,
  lookup_bottom, check_frame, lookup_read, shadow_lookuppage, Memory, Ops, Got,
}
use csci.Prelude.Outcome.{Outcome, done}

-- slab_obj_alloc and page_alloc give frames that hold no page.
abbrev pub IsFresh : (Memory → Option ℕ) → Type 0
IsFresh new = (t : Memory) (f : ℕ) → new t ≡ some f → has f t.pframe_hash ≡ false

-- The shadow objects `o ∷ os` stand on the anonymous object `b`, and no frame is busy.
pub record Sound (o : ℕ) (os : List ℕ) (b : ℕ) (m : Memory) : Type 0 where
  pub chain : IsChain m.mmo_shadowed (o ∷ os) b
  pub bottom : m.mmo_bottom_obj o ≡ some b
  pub anonymous : m.mmo_ops b ≡ Ops.anon_ops
  pub counted : ltb 0 (m.mmo_refcount o) ≡ true
  pub counted_b : ltb 0 (m.mmo_refcount b) ≡ true
  pub idle : (f : ℕ) → has f m.pframe_hash ≡ true → m.busy f ≡ false

abbrev pub KeepsViews : Memory → Memory → Type 0
KeepsViews m m' =
    (os : List ℕ) (b p : ℕ)
    → IsChain m.mmo_shadowed os b
    → seen (content m') os b p ≡ seen (content m) os b p

-- The frame has what the chain showed of the page, no chain shows anything new, and for writing the
-- frame belongs to `o` itself.
pub record Shown (o : ℕ) (os : List ℕ) (b page : ℕ) (forwrite : Bool) (m : Memory) (r : Outcome Got)
    : Type 0 where
  pub frame : ℕ
  pub memory : Memory
  pub run : r ≡ done (Got.got frame memory)
  pub shows : memory.pf_data frame ≡ seen (content m) (o ∷ os) b page
  pub views : KeepsViews m memory
  pub own : forwrite ≡ true → frame_of memory o page ≡ some frame

-- The call returns -ENOMEM after `new` gave no frame, and the frames and their contents are those that `new` found.
pub record Starved (new : Memory → Option ℕ) (r : Outcome Got) : Type 0 where
  pub memory : Memory
  pub run : r ≡ done (Got.fails Errno.enomem memory)
  pub at : Memory
  pub starved : new at ≡ none
  pub frames_same : memory.frames ≡ at.frames
  pub hash_same : memory.pframe_hash ≡ at.pframe_hash
  pub data_same : memory.pf_data ≡ at.pf_data

-- A page that comes to the top of some chain with what the chain showed of it.
pub views-put_page :
    (shadowed : ℕ → Option ℕ) (c0 c : ℕ → ℕ → Option ℕ) (os : List ℕ) (b page : ℕ)
    → IsChain shadowed os b
    → ((o' p' : ℕ) → c o' p' ≡ put_page c0 (top_of os b) page (seen c0 os b page) o' p')
    → (os' : List ℕ) (b' p : ℕ) → IsChain shadowed os' b'
    → seen c os' b' p ≡ seen c0 os' b' p
views-put_page shadowed c0 c os b page chain h os' b' p chain' =
    let same : c ≡ put_page c0 (top_of os b) page (seen c0 os b page) = λ i o' p'. h o' p' i in
    ap (λ x. seen x os' b' p) same
    ∙ seen-put_page shadowed c0 (top_of os b) page (seen c0 os b page)
        (λ xs y i e. seen-same_top shadowed c0 xs y os b page i chain e) os' b' p chain'

pub IsChain-bottom :
    (shadowed : ℕ → Option ℕ) (os : List ℕ) (b : ℕ) → IsChain shadowed os b → shadowed b ≡ none
IsChain-bottom shadowed [] b i = i
IsChain-bottom shadowed (o ∷ os) b (s, i) = IsChain-bottom shadowed os b i

pub first-append :
    (m : Memory) (os : List ℕ) (b page : ℕ)
    → first m (os ++ b ∷ []) page
      ≡ elim (first m os page) [ none ↦ frame_of m b page | some f ↦ some f ]
unfolding first
first-append m [] b page = elim (Option-cases (frame_of m b page)) [
  | inl e ↦ rw (first, e) refl
  | inr (f, e) ↦ rw (first, e) refl
]
first-append m (o ∷ os) b page = elim (Option-cases (frame_of m o page)) [
  | inl e ↦ rw (first, e) (first-append m os b page)
  | inr (f, e) ↦ rw (first, e) refl
]

module _ (new : Memory → Option ℕ) (vnode_lookup : ℕ → ℕ → Memory → Outcome Got)
    (woken : List Memory) where
  -- The assertions on the returned frame hold.
  pub check_frame-got :
      (page f : ℕ) (m : Memory)
      → m.pf_pagenum f ≡ page
      → m.busy f ≡ false
      → check_frame new vnode_lookup woken page (Got.got f m) ≡ done (Got.got f m)
  check_frame-got page f m e idle = rw (e, idle, ==_refl page) refl

  -- No shadow object has the page.
  read_below-Shown :
      (m : Memory) (o : ℕ) (os : List ℕ) (b page fuel : ℕ)
      → IsFresh new
      → Sound o os b m
      → first m (o ∷ os) page ≡ none
      → Listed m (first m (o ∷ os) page) (search_from new vnode_lookup woken fuel o page m)
      → Shown o os b page false m (shadow_lookuppage new vnode_lookup woken fuel o page false m)
        ⊎ Starved new (shadow_lookuppage new vnode_lookup woken fuel o page false m)
  unfolding shadow_lookuppage lookup_read lookup_bottom anon_lookuppage get_new pframe_alloc first
  read_below-Shown m o os b page fuel fresh sound above s =
      let t = set_frames s.lists m in
      elim (Option-cases (frame_of m b page)) [
        | inr (g, e) ↦
            let (h, i, j) = find-member m.pf_obj m.pf_pagenum m.pframe_hash b page g e in
            let fill = get-some new (anon_fillpage new) woken b page g t e (sound.idle g h) in
            inl (record {
              frame = g;
              memory = used_last g t;
              run =
                  rw
                    (
                      shadow_lookuppage, lookup_read, s.run, above, sound.bottom, lookup_bottom,
                      sound.anonymous, anon_lookuppage, fill,
                    )
                    (check_frame-got page g (used_last g t) j (sound.idle g h));
              shows = sym (
                  first-seen m (o ∷ os) b page
                  ∙ rw (first-append m (o ∷ os) b page, above, e) refl);
              views = λ os' b' p x. refl;
              own = λ x. absurd (ground (arith, x));
            })
        | inl e ↦ elim (Option-cases (new t)) [
          | inl dry ↦
              let fill = get-none new (anon_fillpage new) woken b page t e in
              inr (record {
                memory = t;
                run =
                    rw
                      (
                        shadow_lookuppage, lookup_read, s.run, above, sound.bottom, lookup_bottom,
                        sound.anonymous, anon_lookuppage, fill, get_new, pframe_alloc, dry,
                      )
                      refl;
                at = t;
                starved = dry;
                frames_same = refl;
                hash_same = refl;
                data_same = refl;
              })
          | inr (g, gives) ↦
              let z = anon_lookuppage-Zeroed new woken g b page t gives sound.counted_b e in
              let end = zeroed z.lists g b page t in
              let zero : seen (content m) (o ∷ os) b page ≡ 0 =
                first-seen m (o ∷ os) b page ∙ rw (first-append m (o ∷ os) b page, above, e) refl in
              let zero_b : seen (content m) [] b page ≡ 0 =
                first-seen m [] b page ∙ rw (first-append m [] b page, first, e) refl in
              inl (record {
                frame = g;
                memory = end;
                run =
                    rw
                      (
                        shadow_lookuppage, lookup_read, s.run, above, sound.bottom, lookup_bottom,
                        sound.anonymous, z.run,
                      )
                      (check_frame-got page g end (rw (==_refl g) refl) (rw (==_refl g) refl));
                shows = rw (==_refl g) (sym zero);
                views =
                    views-put_page m.mmo_shadowed (content m) (content end) [] b page
                      (IsChain-bottom m.mmo_shadowed (o ∷ os) b sound.chain)
                      (λ o' p'. rw (zero_b) (content-new g b page 0 t o' p' (fresh t g gives)));
                own = λ x. absurd (ground (arith, x));
              })
        ]
      ]

  pub read-Shown :
      (m : Memory) (o : ℕ) (os : List ℕ) (b page fuel : ℕ)
      → IsFresh new
      → Sound o os b m
      → ltb (length (o ∷ os)) fuel ≡ true
      → Shown o os b page false m (shadow_lookuppage new vnode_lookup woken fuel o page false m)
        ⊎ Starved new (shadow_lookuppage new vnode_lookup woken fuel o page false m)
  unfolding shadow_lookuppage lookup_read lookup_bottom
  read-Shown m o os b page fuel fresh sound enough =
      let s = search-first new vnode_lookup woken m (o ∷ os) b page fuel sound.chain enough in
      elim (Option-cases (first m (o ∷ os) page)) [
        | inr (g, e) ↦
            let (h, at_page) = first-member m (o ∷ os) page g e in
            inl (record {
              frame = g;
              memory = set_frames s.lists m;
              run =
                  rw (shadow_lookuppage, lookup_read, s.run, e)
                    (check_frame-got page g (set_frames s.lists m) at_page (sound.idle g h));
              shows =
                  sym (first-seen m (o ∷ os) b page ∙ rw (first-append m (o ∷ os) b page, e) refl);
              views = λ os' b' p i. refl;
              own = λ h. absurd (ground (arith, h));
            })
        | inl e ↦ read_below-Shown m o os b page fuel fresh sound e s
      ]
