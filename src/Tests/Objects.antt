-- ===== src/Tests/Objects.antt =====
-- The shadow object 3 stands on 2, which stands on the anonymous object 1. The frame 7 is page 4 of 2.
use csci.Prelude.{
  inl, arith, ◌∙◌, sym, ◌⊎◌, some, false, none, refl, ◌≡◌, true, ◌==◌, inr, [], if◌then◌else◌, not,
  ◌∷◌, ℕ, Bool-cases, Option,
}
use csci.Objects.Looked.{IsFresh, Shown, Sound, Starved}
use csci.Objects.Written.{shadow_lookuppage-Shown}
use csci.Objects.{
  pframe_dirty, pin, copy_page, search_below, shadow_fillpage, pframe_fill, mmobj_ref, pframe_alloc,
  get_new, pframe_get, find_frame, pframe_get_resident, got, lookup_write, Memory, Ops, Got,
  shadow_lookuppage,
}
use csci.Pframe.{pframe_pin}
use csci.Paging.{Errno}
use csci.Prelude.Outcome.{Outcome, done}
use csci.Sched.{has}

abbrev memory : Memory
memory = record {
  frames = record {
    is_free = λ f. not (f == 7);
    pf_pincount = λ f. if f == 7 then 1 else 0;
    alloc_list = [];
    pinned_list = 7 ∷ [];
    nallocated = 0;
    npinned = 1;
  };
  pframe_hash = 7 ∷ [];
  pf_obj = λ f. 2;
  pf_pagenum = λ f. 4;
  pf_data = λ f. if f == 7 then 42 else 99;
  busy = λ f. false;
  dirty = λ f. false;
  mmo_ops = λ o. if o == 1 then Ops.anon_ops else Ops.shadow_ops;
  mmo_shadowed = λ o. if o == 3 then some 2 else if o == 2 then some 1 else none;
  mmo_bottom_obj = λ o. some 1;
  mmo_refcount = λ o. if o == 2 then 2 else 1;
  mmo_nrespages = λ o. if o == 2 then 1 else 0;
  mmo_respages = λ o. if o == 2 then 7 ∷ [] else [];
}

-- Two frames to give.
abbrev two_frames : Memory → Option ℕ
two_frames t =
    if has 5 t.pframe_hash then (if has 6 t.pframe_hash then none else some 6) else some 5

two_frames-IsFresh : IsFresh two_frames
two_frames-IsFresh t f h = elim (Bool-cases (has 5 t.pframe_hash)) [
  | inr free_5 ↦
      let found : some 5 ≡ some f = sym (rw (free_5) refl) ∙ h in
      let five : 5 ≡ f = ground (arith, found) in rw (sym five) free_5
  | inl used_5 ↦ elim (Bool-cases (has 6 t.pframe_hash)) [
    | inr free_6 ↦
        let found : some 6 ≡ some f = sym (rw (used_5, free_6) refl) ∙ h in
        let six : 6 ≡ f = ground (arith, found) in rw (sym six) free_6
    | inl used_6 ↦ absurd (
        let nothing : none ≡ some f = sym (rw (used_5, used_6) refl) ∙ h in ground (arith, nothing))
  ]
]

-- No object of a vnode is here.
abbrev no_vnode : ℕ → ℕ → Memory → Outcome Got
no_vnode o page t = done (Got.fails Errno.efault t)

memory-Sound : Sound 3 (2 ∷ []) 1 memory
memory-Sound = record {
  chain = (refl, (refl, refl));
  bottom = refl;
  anonymous = refl;
  counted = refl;
  counted_b = refl;
  idle = λ f h. refl;
}

shadow_lookuppage-Shown_example :
    Shown 3 (2 ∷ []) 1 4 true memory (shadow_lookuppage two_frames no_vnode [] 3 3 4 true memory)
    ⊎ Starved two_frames (shadow_lookuppage two_frames no_vnode [] 3 3 4 true memory)
shadow_lookuppage-Shown_example =
    shadow_lookuppage-Shown two_frames no_vnode [] memory 3 (2 ∷ []) 1 4 3 true two_frames-IsFresh
      memory-Sound refl

data_of : Outcome Got → ℕ
data_of (done (got f t)) = t.pf_data f
data_of r = 0

copied : data_of (shadow_lookuppage two_frames no_vnode [] 3 3 4 true memory) ≡ 42
unfolding data_of shadow_lookuppage lookup_write pframe_get_resident find_frame pframe_get get_new
    pframe_alloc mmobj_ref pframe_fill shadow_fillpage search_below copy_page pin pframe_pin
    pframe_dirty
copied = refl
