-- ===== src/Objects.antt =====
-- Memory objects and their pages: Homework/Kernel/vm/anon.c and Homework/Kernel/vm/shadow.c, over pframe_get and
-- what it calls of Homework/Kernel/mm/pframe.c. Objects and frames are numbers, the contents of a page
-- is a number, 0 that of a page of zeros. The chains of pframe_hash are one list.
use csci.Paging.{Errno}
use csci.Prelude.Outcome.{kassert, deref, done, ◌>>◌, ◌>>=◌, out_of_fuel, Outcome}
use csci.Prelude.{
  ltb, zero, false, ◌&&◌, [], ◌==◌, suc, true, some, ◌++◌, ◌∷◌, not, ◌+◌, if◌then◌else◌, Bool, none,
  ℕ, Option, List,
}
use csci.Pframe.{Pframes, pframe_pin}
use csci.Sched.{update, erase}
pub mod Contents
pub mod Filled
pub mod Looked
pub mod Search
pub mod Views
pub mod Copied
pub mod Written
pub mod Below

-- mmo_ops: an object of a vnode has operations of its own, which are parameters.
pub data Ops : Type 0 where
  anon_ops shadow_ops vnode_ops : Ops

pub record Memory : Type 0 where
  pub frames : Pframes
  pub pframe_hash : List ℕ
  pub pf_obj : ℕ → ℕ
  pub pf_pagenum : ℕ → ℕ
  pub pf_data : ℕ → ℕ
  pub busy : ℕ → Bool
  pub dirty : ℕ → Bool
  pub mmo_ops : ℕ → Ops
  pub mmo_shadowed : ℕ → Option ℕ
  pub mmo_bottom_obj : ℕ → Option ℕ
  pub mmo_refcount : ℕ → ℕ
  pub mmo_nrespages : ℕ → ℕ
  pub mmo_respages : ℕ → List ℕ

-- How a call for a page ends: with the frame, with an error code, or in a sleep.
pub data Got : Type 0 where
  got : ℕ → Memory → Got
  fails : Errno → Memory → Got
  sleeps : Got

abbrev pub is_pinned : ℕ → Memory → Bool
is_pinned f m = not (m.frames.pf_pincount f == 0)

-- The scan of pframe_get_resident.
unfoldable pub find_frame : (ℕ → ℕ) → (ℕ → ℕ) → List ℕ → ℕ → ℕ → Option ℕ
find_frame pf_obj pf_pagenum [] o page = none
find_frame pf_obj pf_pagenum (f ∷ fs) o page =
    let rest = find_frame pf_obj pf_pagenum fs o page in
    if pf_obj f == o && pf_pagenum f == page then some f else rest

abbrev pub set_frames : Pframes → Memory → Memory
set_frames p m = record m { frames = p }

-- A frame that is not pinned goes to the end of alloc_list.
abbrev pub used_last : ℕ → Memory → Memory
used_last f m =
    set_frames
      (if is_pinned f m
        then m.frames
        else record m.frames { alloc_list = erase f m.frames.alloc_list ++ f ∷ [] })
      m

unfoldable pub pframe_get_resident : ℕ → ℕ → Memory → Option ℕ × Memory
unfolding find_frame erase
pframe_get_resident o page m = elim (find_frame m.pf_obj m.pf_pagenum m.pframe_hash o page) [
  | none ↦ (none, m)
  | some f ↦ (some f, used_last f m)
]

-- anon_ref and shadow_ref; the ref of a vnode object counts too.
unfoldable pub mmobj_ref : ℕ → Memory → Outcome Memory
mmobj_ref o m = do
  kassert (elim (m.mmo_ops o) [ Ops.vnode_ops ↦ true | _ ↦ ltb 0 (m.mmo_refcount o) ])
  done (record m { mmo_refcount = update m.mmo_refcount o (m.mmo_refcount o + 1) })

-- The fields of a new frame, which joins alloc_list and the hash table.
abbrev pub new_frame : ℕ → ℕ → ℕ → Memory → Memory
new_frame f o page m = record m {
  frames = record m.frames {
    nallocated = m.frames.nallocated + 1;
    alloc_list = m.frames.alloc_list ++ f ∷ [];
    is_free = update m.frames.is_free f false;
    pf_pincount = update m.frames.pf_pincount f 0;
  };
  pf_obj = update m.pf_obj f o;
  pf_pagenum = update m.pf_pagenum f page;
  busy = update m.busy f false;
  dirty = update m.dirty f false;
  pframe_hash = f ∷ m.pframe_hash;
}

-- What a copy writes into a frame.
abbrev pub set_data : ℕ → ℕ → Memory → Memory
set_data f d m = record m { pf_data = update m.pf_data f d }

abbrev pub set_busy : ℕ → Bool → Memory → Memory
set_busy f b m = record m { busy = update m.busy f b }

unfoldable pub pin : ℕ → Memory → Outcome Memory
unfolding pframe_pin
pin f m = do p ← pframe_pin f m.frames; done (set_frames p m)

-- `new` is what slab_obj_alloc and page_alloc give: a frame with memory, or none.
module _ (new : Memory → Option ℕ) where
  unfoldable pub pframe_alloc : ℕ → ℕ → Memory → Outcome (Option ℕ × Memory)
  unfolding mmobj_ref
  pframe_alloc o page m = elim (new m) [
    | none ↦ done (none, m)
    | some f ↦ do
      m1 ← mmobj_ref o (new_frame f o page m)
      done (
        some f,
        record m1 {
          mmo_nrespages = update m1.mmo_nrespages o (m1.mmo_nrespages o + 1);
          mmo_respages = update m1.mmo_respages o (f ∷ m1.mmo_respages o);
        },
      )
  ]

  -- pframe_fill, with the fillpage of the object.
  unfoldable pub pframe_fill : (ℕ → ℕ → Memory → Outcome Got) → ℕ → Memory → Outcome Got
  pframe_fill fillpage f m = do
    r ← fillpage (m.pf_obj f) f (set_busy f true m)
    done (elim r [
      | got g m1 ↦ Got.got f (set_busy f false m1)
      | fails e m1 ↦ Got.fails e (set_busy f false m1)
      | sleeps ↦ Got.sleeps
    ])

  -- The branch of pframe_get for a page that is not resident.
  unfoldable pub get_new : (ℕ → ℕ → Memory → Outcome Got) → ℕ → ℕ → Memory → Outcome Got
  unfolding pframe_alloc pframe_fill
  get_new fillpage o page m = do
    a ← pframe_alloc o page m
    elim a.0 [ none ↦ done (Got.fails Errno.enomem a.1) | some f ↦ pframe_fill fillpage f a.1 ]

  -- pframe_get. It sleeps while the frame is busy; `woken` are the memories that it finds when it is
  -- woken up. pageoutd, which it may wake up, is another thread.
  unfoldable pub pframe_get :
      (ℕ → ℕ → Memory → Outcome Got) → List Memory → ℕ → ℕ → Memory → Outcome Got
  unfolding pframe_get_resident get_new
  pframe_get fillpage [] o page m =
      let r = pframe_get_resident o page m in
      elim r.0 [
        | none ↦ get_new fillpage o page r.1
        | some f ↦ done (if r.1.busy f then Got.sleeps else Got.got f r.1)
      ]
  pframe_get fillpage (t ∷ woken) o page m =
      let r = pframe_get_resident o page m in
      let again = pframe_get fillpage woken o page t in
      elim r.0 [
        | none ↦ get_new fillpage o page r.1
        | some f ↦ if r.1.busy f then again else done (Got.got f r.1)
      ]

  unfoldable pub anon_fillpage : ℕ → ℕ → Memory → Outcome Got
  unfolding pin
  anon_fillpage o f m = do
    kassert (m.busy f)
    kassert (not (is_pinned f m))
    m1 ← pin f m
    done (Got.got f (set_data f 0 m1))

  unfoldable pub anon_lookuppage : List Memory → ℕ → ℕ → Memory → Outcome Got
  unfolding pframe_get anon_fillpage
  anon_lookuppage woken o page m = pframe_get anon_fillpage woken o page m

  -- `vnode_lookup` is the lookuppage of a vnode object.
  module _ (vnode_lookup : ℕ → ℕ → Memory → Outcome Got) (woken : List Memory) where
    -- pframe_lookup of the bottom object for reading. No bottom object is a shadow object.
    unfoldable pub lookup_bottom : ℕ → ℕ → Memory → Outcome Got
    unfolding anon_lookuppage
    lookup_bottom b page m = elim (m.mmo_ops b) [
      | Ops.anon_ops ↦ anon_lookuppage woken b page m
      | _ ↦ vnode_lookup b page m
    ]

    -- The loop of shadow_fillpage, over the objects below `cur`.
    unfoldable pub search_below : ℕ → ℕ → ℕ → Memory → Outcome (Option ℕ × Memory)
    unfolding pframe_get_resident
    search_below zero cur page m = out_of_fuel
    search_below (suc fuel) cur page m = elim (m.mmo_shadowed cur) [
      | none ↦ done (none, m)
      | some s ↦
          let r = pframe_get_resident s page m in
          let rest = search_below fuel s page r.1 in
          elim r.0 [ none ↦ rest | some g ↦ done (some g, r.1) ]
    ]

    -- The contents of the frame `g` go to `f`, which is pinned.
    unfoldable pub copy_page : ℕ → ℕ → Memory → Outcome Got
    unfolding pin
    copy_page f g m = do m1 ← pin f (set_data f (m.pf_data g) m); done (Got.got f m1)

    unfoldable pub shadow_fillpage : ℕ → ℕ → ℕ → Memory → Outcome Got
    unfolding search_below copy_page lookup_bottom
    shadow_fillpage fuel o f m = do
      kassert (m.busy f)
      kassert (not (is_pinned f m))
      r ← search_below fuel o (m.pf_pagenum f) m
      elim r.0 [
        | some g ↦ copy_page f g r.1
        | none ↦ do
          b ← deref (r.1.mmo_bottom_obj o)
          below ← lookup_bottom b (r.1.pf_pagenum f) r.1
          elim below [
            | got g m1 ↦ copy_page f g m1
            | fails e m1 ↦ done (Got.fails e m1)
            | sleeps ↦ done Got.sleeps
          ]
      ]

    -- pframe_dirty with shadow_dirtypage, for a frame that is not busy.
    unfoldable pub pframe_dirty : ℕ → Memory → Outcome Memory
    pframe_dirty f m = do
      kassert (not (m.busy f))
      done
          (record m { dirty = update m.dirty f true; busy = update (update m.busy f true) f false })

    -- The loop of shadow_lookuppage for reading.
    unfoldable pub search_from : ℕ → ℕ → ℕ → Memory → Outcome (Option ℕ × Memory)
    unfolding pframe_get_resident
    search_from zero cur page m = out_of_fuel
    search_from (suc fuel) cur page m = elim (m.mmo_shadowed cur) [
      | none ↦ done (none, m)
      | some s ↦
          let r = pframe_get_resident cur page m in
          let rest = search_from fuel s page r.1 in
          elim r.0 [ none ↦ rest | some g ↦ done (some g, r.1) ]
    ]

    unfoldable pub lookup_read : ℕ → ℕ → ℕ → Memory → Outcome Got
    unfolding search_from lookup_bottom
    lookup_read fuel o page m = do
      r ← search_from fuel o page m
      elim r.0 [
        | some g ↦ done (Got.got g r.1)
        | none ↦ do b ← deref (r.1.mmo_bottom_obj o); lookup_bottom b page r.1
      ]

    unfoldable pub lookup_write : ℕ → ℕ → ℕ → Memory → Outcome Got
    unfolding pframe_get_resident pframe_get shadow_fillpage pframe_dirty
    lookup_write fuel o page m = do
      let r = pframe_get_resident o page m
      elim r.0 [
        | some g ↦ done (Got.got g r.1)
        | none ↦ do
          g ← pframe_get (shadow_fillpage fuel) woken o page r.1
          elim g [
            | got f m1 ↦ do m2 ← pframe_dirty f m1; done (Got.got f m2)
            | fails e m1 ↦ done (Got.fails e m1)
            | sleeps ↦ done Got.sleeps
          ]
      ]

    -- The assertions on the frame that shadow_lookuppage returns.
    abbrev pub check_frame : ℕ → Got → Outcome Got
    check_frame page (got f m) = do
      kassert (page == m.pf_pagenum f && not (m.busy f))
      done (Got.got f m)
    check_frame page g = done g

    unfoldable pub shadow_lookuppage : ℕ → ℕ → ℕ → Bool → Memory → Outcome Got
    unfolding lookup_read lookup_write
    shadow_lookuppage fuel o page forwrite m =
        (if forwrite then lookup_write fuel o page m else lookup_read fuel o page m)
        >>= check_frame page
