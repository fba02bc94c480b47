-- ===== src/Objects/Written.antt =====
-- shadow_lookuppage, for reading and for writing.
use csci.Paging.{Errno}
use csci.Sched.{update}
use csci.Objects.Filled.{get_new-filled, filled, get_new-dry, get-none}
use csci.Prelude.{
  refl, ◌∙◌, none, ap, ==_refl, inl, inr, false, Option-cases, ◌⊎◌, some, true, ◌≡◌, ◌∷◌, length,
  ltb, Bool, List, ℕ, Option,
}
use csci.Objects.Copied.{fill-Copied, filling}
use csci.Objects.Looked.{Shown, Starved, IsFresh, Sound, read-Shown, check_frame-got}
use csci.Objects.Search.{resident-none, resident-some}
use csci.Objects.Views.{find-member, seen, frame_of}
use csci.Objects.{
  sleeps, pframe_get, fails, got, set_busy, shadow_fillpage, used_last, pframe_dirty, get_new,
  lookup_write, shadow_lookuppage, Memory, Got,
}
use csci.Prelude.Outcome.{◌>>=◌, Outcome, done}

module _ (new : Memory → Option ℕ) (vnode_lookup : ℕ → ℕ → Memory → Outcome Got)
    (woken : List Memory) where
  -- What shadow_lookuppage does with the page that pframe_get gives.
  abbrev dirtied : Got → Outcome Got
  dirtied g = elim g [
    | got f t ↦ do t' ← pframe_dirty new vnode_lookup woken f t; done (Got.got f t')
    | fails e t ↦ done (Got.fails e t)
    | sleeps ↦ done Got.sleeps
  ]

  lookup_write-some :
      (m : Memory) (o page fuel g : ℕ)
      → frame_of m o page ≡ some g
      → lookup_write new vnode_lookup woken fuel o page m ≡ done (Got.got g (used_last g m))
  unfolding lookup_write
  lookup_write-some m o page fuel g e =
      rw (lookup_write, e) (ap (λ r. done (Got.got g r.1)) (resident-some m o page g e))

  lookup_write-none :
      (m : Memory) (o page fuel : ℕ)
      → frame_of m o page ≡ none
      → lookup_write new vnode_lookup woken fuel o page m
        ≡ get_new new (shadow_fillpage new vnode_lookup woken fuel) o page m >>= dirtied
  unfolding lookup_write
  lookup_write-none m o page fuel e =
      let fill = shadow_fillpage new vnode_lookup woken fuel in
      rw (lookup_write, e)
        (ap (λ r. pframe_get new fill woken o page r.1 >>= dirtied) (resident-none m o page e))
      ∙ ap (λ g. g >>= dirtied) (get-none new fill woken o page m e)

  -- The object has the page.
  write_own-Shown :
      (m : Memory) (o : ℕ) (os : List ℕ) (b page fuel g : ℕ)
      → Sound o os b m
      → frame_of m o page ≡ some g
      → Shown o os b page true m (shadow_lookuppage new vnode_lookup woken fuel o page true m)
  unfolding shadow_lookuppage lookup_write seen
  write_own-Shown m o os b page fuel g sound e =
      let (h, i, j) = find-member m.pf_obj m.pf_pagenum m.pframe_hash o page g e in
      record {
        frame = g;
        memory = used_last g m;
        run =
            rw (shadow_lookuppage, lookup_write-some m o page fuel g e)
              (check_frame-got new vnode_lookup woken page g (used_last g m) j (sound.idle g h));
        shows = rw (seen, e) refl;
        views = λ os' b' p x. refl;
        own = λ x. e;
      }

  write-Shown :
      (m : Memory) (o : ℕ) (os : List ℕ) (b page fuel : ℕ)
      → IsFresh new
      → Sound o os b m
      → ltb (length (o ∷ os)) fuel ≡ true
      → Shown o os b page true m (shadow_lookuppage new vnode_lookup woken fuel o page true m)
        ⊎ Starved new (shadow_lookuppage new vnode_lookup woken fuel o page true m)
  unfolding shadow_lookuppage pframe_dirty
  write-Shown m o os b page fuel fresh sound enough = elim (Option-cases (frame_of m o page)) [
    | inr (g, e) ↦ inl (write_own-Shown m o os b page fuel g sound e)
    | inl e ↦
        let fill = lookup_write-none m o page fuel e in
        elim (Option-cases (new m)) [
          | inl dry ↦ inr (record {
            memory = m;
            run =
                rw
                  (
                    shadow_lookuppage,
                    fill,
                    get_new-dry new (shadow_fillpage new vnode_lookup woken fuel) o page m dry,
                  )
                  refl;
            at = m;
            starved = dry;
            frames_same = refl;
            hash_same = refl;
            data_same = refl;
          })
          | inr (f, gives) ↦
              let ends : (r : Got)
                  → shadow_fillpage new vnode_lookup woken fuel o f (filling f o page m) ≡ done r
                  → get_new new (shadow_fillpage new vnode_lookup woken fuel) o page m
                    ≡ done (filled f r) =
                λ r run.
                  get_new-filled new (shadow_fillpage new vnode_lookup woken fuel) f o page m r
                    gives sound.counted run in
              elim (fill-Copied new vnode_lookup woken m o os b page fuel f fresh gives sound e
                enough) [
                  | inr none_left ↦ inr (record {
                    memory = set_busy f false none_left.memory;
                    run =
                        rw
                          (
                            shadow_lookuppage,
                            fill,
                            ends (Got.fails Errno.enomem none_left.memory) none_left.run,
                          )
                          refl;
                    at = none_left.at;
                    starved = none_left.starved;
                    frames_same = none_left.frames_same;
                    hash_same = none_left.hash_same;
                    data_same = none_left.data_same;
                  })
                  | inl c ↦
                      let t = set_busy f false c.memory in
                      let end = record t {
                        dirty = update t.dirty f true;
                        busy = update (update t.busy f true) f false;
                      } in
                      inl (record {
                        frame = f;
                        memory = end;
                        run =
                            rw
                              (
                                shadow_lookuppage,
                                fill,
                                ends (Got.got f c.memory) c.run,
                                pframe_dirty,
                                ==_refl f,
                              )
                              (check_frame-got new vnode_lookup woken page f end c.at_page
                                (rw (==_refl f) refl));
                        shows = c.shows;
                        views = c.views;
                        own = λ x. c.frame;
                      })
                ]
        ]
  ]

  -- Where `new` gives frames that hold no page, the shadow objects stand on an anonymous object that
  -- is the bottom object of `o`, both `o` and that object have a positive count of references, no
  -- resident frame is busy, and there are more rounds than shadow objects, shadow_lookuppage returns a
  -- frame whose contents are those that the chain showed of the page; for writing the frame is one of
  -- the object itself. What any chain shows of any page is as before. Or it returns -ENOMEM, after `new`
  -- gave no frame, with the frames and their contents as `new` found them.
  pub shadow_lookuppage-Shown :
      (m : Memory) (o : ℕ) (os : List ℕ) (b page fuel : ℕ) (forwrite : Bool)
      → IsFresh new
      → Sound o os b m
      → ltb (length (o ∷ os)) fuel ≡ true
      → Shown o os b page forwrite m
          (shadow_lookuppage new vnode_lookup woken fuel o page forwrite m)
        ⊎ Starved new (shadow_lookuppage new vnode_lookup woken fuel o page forwrite m)
  shadow_lookuppage-Shown m o os b page fuel true fresh sound enough =
      write-Shown m o os b page fuel fresh sound enough
  shadow_lookuppage-Shown m o os b page fuel false fresh sound enough =
      read-Shown new vnode_lookup woken m o os b page fuel fresh sound enough
