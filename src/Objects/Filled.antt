-- ===== src/Objects/Filled.antt =====
-- A page that is not resident is allocated, and the anonymous object fills it with zeros.
use csci.Paging.{Errno}
use csci.Sched.{update}
use csci.Prelude.Outcome.{done, Outcome}
use csci.Prelude.{
  if◌then◌else◌, ap, [], ◌∙◌, ==_refl, none, refl, ◌∷◌, inl, ◌+◌, ltb, ◌==◌, List, some, Bool-cases,
  inr, true, Option, ◌⊎◌, false, ℕ, ◌≡◌,
}
use csci.Pframe.{to_pinned, pframe_pin, Pframes}
use csci.Objects.Search.{resident-none, resident-some}
use csci.Objects.Views.{frame_of}
use csci.Objects.{
  got, fails, sleeps, vnode_ops, shadow_ops, used_last, anon_ops, anon_fillpage, pframe_fill, Got,
  new_frame, get_new, mmobj_ref, pframe_alloc, pframe_get, anon_lookuppage, Memory, Ops, pin,
  set_busy, set_data, set_frames,
}

-- The memory after pframe_alloc.
abbrev pub made : ℕ → ℕ → ℕ → Memory → Memory
made f o page m = record (new_frame f o page m) {
  mmo_refcount = update m.mmo_refcount o (m.mmo_refcount o + 1);
  mmo_nrespages = update m.mmo_nrespages o (m.mmo_nrespages o + 1);
  mmo_respages = update m.mmo_respages o (f ∷ m.mmo_respages o);
}

Ops-cases : (k : Ops) → (k ≡ Ops.vnode_ops) ⊎ ((k ≡ Ops.anon_ops) ⊎ (k ≡ Ops.shadow_ops))
Ops-cases anon_ops = inr (inl refl)
Ops-cases shadow_ops = inr (inr refl)
Ops-cases vnode_ops = inl refl

pub alloc-made :
    (new : Memory → Option ℕ) (f o page : ℕ) (m : Memory)
    → new m ≡ some f
    → ltb 0 (m.mmo_refcount o) ≡ true
    → pframe_alloc new o page m ≡ done (some f, made f o page m)
unfolding pframe_alloc mmobj_ref
alloc-made new f o page m e counted = elim (Ops-cases (m.mmo_ops o)) [
  | inl vnode ↦ rw (pframe_alloc, e, vnode) refl
  | inr (inl anon) ↦ rw (pframe_alloc, e, anon, counted) refl
  | inr (inr shadow) ↦ rw (pframe_alloc, e, shadow, counted) refl
]

pub get-none :
    (new : Memory → Option ℕ) (fill : ℕ → ℕ → Memory → Outcome Got) (woken : List Memory)
    (o page : ℕ) (m : Memory)
    → frame_of m o page ≡ none
    → pframe_get new fill woken o page m ≡ get_new new fill o page m
unfolding pframe_get
get-none new fill [] o page m e =
    rw (pframe_get, e) (ap (λ r. get_new new fill o page r.1) (resident-none m o page e))
get-none new fill (t ∷ woken) o page m e =
    rw (pframe_get, e) (ap (λ r. get_new new fill o page r.1) (resident-none m o page e))

pub get-some :
    (new : Memory → Option ℕ) (fill : ℕ → ℕ → Memory → Outcome Got) (woken : List Memory)
    (o page f : ℕ) (m : Memory)
    → frame_of m o page ≡ some f
    → m.busy f ≡ false
    → pframe_get new fill woken o page m ≡ done (Got.got f (used_last f m))
unfolding pframe_get
get-some new fill [] o page f m e idle =
    rw (pframe_get, e)
      (ap (λ r. done (if r.1.busy f then Got.sleeps else Got.got f r.1))
          (resident-some m o page f e)
        ∙ rw (idle) refl)
get-some new fill (t ∷ woken) o page f m e idle =
    let again = pframe_get new fill woken o page t in
    rw (pframe_get, e)
      (ap (λ r. if r.1.busy f then again else done (Got.got f r.1)) (resident-some m o page f e)
        ∙ rw (idle) refl)

-- What pframe_fill makes of the result of the fillpage.
abbrev pub filled : ℕ → Got → Got
filled f r = elim r [
  | got g t ↦ Got.got f (set_busy f false t)
  | fails e t ↦ Got.fails e (set_busy f false t)
  | sleeps ↦ Got.sleeps
]

pub get_new-filled :
    (new : Memory → Option ℕ) (fill : ℕ → ℕ → Memory → Outcome Got) (f o page : ℕ) (m : Memory)
    (r : Got)
    → new m ≡ some f
    → ltb 0 (m.mmo_refcount o) ≡ true
    → fill o f (set_busy f true (made f o page m)) ≡ done r
    → get_new new fill o page m ≡ done (filled f r)
unfolding get_new pframe_fill
get_new-filled new fill f o page m r gives counted run =
    rw (get_new, alloc-made new f o page m gives counted, pframe_fill, ==_refl f, run) refl

pub get_new-dry :
    (new : Memory → Option ℕ) (fill : ℕ → ℕ → Memory → Outcome Got) (o page : ℕ) (m : Memory)
    → new m ≡ none
    → get_new new fill o page m ≡ done (Got.fails Errno.enomem m)
unfolding get_new pframe_alloc
get_new-dry new fill o page m dry = rw (get_new, pframe_alloc, dry) refl

-- A frame that is not free is pinned, and only the lists and the pin count change.
pub record Pinned (f : ℕ) (m : Memory) (r : Outcome Memory) : Type 0 where
  pub lists : Pframes
  pub kept : lists.is_free ≡ m.frames.is_free
  pub run : r ≡ done (set_frames lists m)

pub pin-Pinned : (f : ℕ) (m : Memory) → m.frames.is_free f ≡ false → Pinned f m (pin f m)
unfolding pin pframe_pin to_pinned
pin-Pinned f m used = elim (Bool-cases (m.frames.pf_pincount f == 0)) [
  | inl h ↦ record {
    lists = record (to_pinned f m.frames) {
      pf_pincount = update m.frames.pf_pincount f (m.frames.pf_pincount f + 1);
    };
    kept = refl;
    run = rw (pin, pframe_pin, used, h) refl;
  }
  | inr h ↦ record {
    lists = record m.frames {
      pf_pincount = update m.frames.pf_pincount f (m.frames.pf_pincount f + 1);
    };
    kept = refl;
    run = rw (pin, pframe_pin, used, h) refl;
  }
]

-- The memory with a page of zeros for the object.
abbrev pub zeroed : Pframes → ℕ → ℕ → ℕ → Memory → Memory
zeroed lists f o page m =
    set_busy f false (set_data f 0 (set_frames lists (set_busy f true (made f o page m))))

pub record Zeroed (f o page : ℕ) (m : Memory) (r : Outcome Got) : Type 0 where
  pub lists : Pframes
  pub kept : lists.is_free ≡ update m.frames.is_free f false
  pub run : r ≡ done (Got.got f (zeroed lists f o page m))

pub anon_lookuppage-Zeroed :
    (new : Memory → Option ℕ) (woken : List Memory) (f o page : ℕ) (m : Memory)
    → new m ≡ some f
    → ltb 0 (m.mmo_refcount o) ≡ true
    → frame_of m o page ≡ none
    → Zeroed f o page m (anon_lookuppage new woken o page m)
unfolding anon_lookuppage get_new pframe_fill anon_fillpage pin pframe_pin to_pinned
anon_lookuppage-Zeroed new woken f o page m e counted absent = record {
  lists = record (to_pinned f (made f o page m).frames) {
    pf_pincount = update (update m.frames.pf_pincount f 0) f 1;
  };
  kept = refl;
  run =
      get-none new (anon_fillpage new) woken o page m absent
      ∙ rw (get_new, alloc-made new f o page m e counted, pframe_fill, anon_fillpage, ==_refl f)
          refl;
}
