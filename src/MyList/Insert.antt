-- ===== src/MyList/Insert.antt =====
-- My402ListAppend, My402ListPrepend, My402ListInsertAfter and My402ListInsertBefore.
use mathlib.Core.Path.{subst}
use csci.MyList.Ring.{Chain-at, head_or, in_last, Chain-ends, last_from, Inserted}
use csci.MyList.Rep.{not_zero, last_in, head_in, not_nil, in_mid, Rep}
use csci.Prelude.Outcome.{done, Outcome}
use csci.Prelude.{
  ◌++◌, inr, ==_iff, inl, ◌∙◌, Bool-cases, ◌+◌, ◌∷◌, List, if◌then◌else◌, ==_refl, some, refl, ◌==◌,
  arith, ◌≢◌, [], true, false, Bool, ◌≡◌, ℕ,
}
use csci.MyList.{
  get_prev, get_next, my402_list_insert_after, my402_list_insert_before, my402_list_first,
  my402_list_prepend, my402_list_last, my402_list_empty, set_obj, set_prev, set_next,
  my402_list_append, anchor, My402List, link_only,
}
use csci.Sched.{has, update}

-- A call that returns TRUE and a list with a property.
pub data Yields (P : My402List → Type 0) : Outcome (Bool × My402List) → Type 0 where
  yields : (l : My402List) → P l → Yields P (done (true, l))

-- An address that malloc may give.
abbrev pub IsFresh : ℕ → My402List → Type 0
IsFresh e l = (l.live e ≡ false) × (e ≢ 0)

-- The memory with `e` between `x` and `y`.
between :
    (x e y o : ℕ) (l : My402List) (next prev : ℕ → ℕ)
    → (x == e) ≡ false
    → (y == e) ≡ false
    → ((a : ℕ) → next a ≡ (if a == e then y else if a == x then e else l.next a))
    → ((a : ℕ) → prev a ≡ (if a == e then x else if a == y then e else l.prev a))
    → Inserted x e y o l (record {
      num_members = l.num_members + 1;
      next = next;
      prev = prev;
      obj = update l.obj e o;
      live = update l.live e true;
    })
between x e y o l next prev x_e y_e n p = record {
  next_x = n x ∙ ground (arith, x_e);
  next_e = n e ∙ ground arith;
  prev_e = p e ∙ ground arith;
  prev_y = p y ∙ ground (arith, y_e);
  next_same = λ a h h'. n a ∙ ground (arith, h, h');
  prev_same = λ a h h'. p a ∙ ground (arith, h, h');
  obj_e = ground arith;
  obj_same = λ a h. ground (arith, h);
  live_e = ground arith;
  live_same = λ a h. ground (arith, h);
  count = refl;
}

-- An element of the list, or the anchor, is allocated and is not the new one.
old :
    (l : My402List) (es : List ℕ) (e a : ℕ)
    → Rep l es
    → IsFresh e l
    → has a (anchor ∷ es) ≡ true
    → (l.live a ≡ true) × ((a == e) ≡ false)
old l es e a r (dead, not_null) h =
    let alive : l.live a ≡ true = r.alive a h in
    (
      alive,
      elim (Bool-cases (a == e)) [
        | inl same ↦
            let eq : a ≡ e = (==_iff a e).0 same in
            let alive' : l.live e ≡ true = subst (λ b. l.live b ≡ true) eq alive in
            absurd (ground (arith, alive', dead))
        | inr ne ↦ ne
      ],
    )

-- The element that is alone.
pub only :
    (l : My402List) (e o : ℕ)
    → Rep l []
    → IsFresh e l
    → Yields (Inserted anchor e anchor o l) (my402_list_append (some e) o l)
unfolding my402_list_append link_only set_next set_prev set_obj my402_list_empty my402_list_last
only l e o r f =
    let (alive, other) = old l [] e anchor r f refl in
    let none_yet : (l.num_members == 0) ≡ true = ground (arith, r.count) in
    simp (==_refl e, other, alive, none_yet)
      (Yields.yields _
        (between anchor e anchor o l _ _ other other (λ a. ground arith) (λ a. ground arith)))

pub appended :
    (l : My402List) (e o x : ℕ) (xs : List ℕ)
    → Rep l (x ∷ xs)
    → IsFresh e l
    → Yields (Inserted (last_from x xs) e anchor o l) (my402_list_append (some e) o l)
unfolding my402_list_append link_only set_next set_prev set_obj my402_list_empty my402_list_last
appended l e o x xs r f =
    let (alive, other) = old l (x ∷ xs) e anchor r f refl in
    let last = l.prev anchor in
    let at : last ≡ last_from x xs = (Chain-ends l anchor (x ∷ xs) (r.ring refl)).1 in
    let (alive_last, other_last) =
      old l (x ∷ xs) e (last_from x xs) r f (ground (arith, in_last x xs)) in
    let none_yet : (l.num_members == 0) ≡ false = ground (arith, r.count) in
    let none_then : (l.num_members + 1 == 0) ≡ false = ground arith in
    simp (==_refl e, other, alive, none_yet, none_then, at, alive_last, other_last)
      (Yields.yields _ (
        between (last_from x xs) e anchor o l _ _ other_last other (λ a. ground arith)
          (λ a. ground arith)))

pub only_prepended :
    (l : My402List) (e o : ℕ)
    → Rep l []
    → IsFresh e l
    → Yields (Inserted anchor e anchor o l) (my402_list_prepend (some e) o l)
unfolding my402_list_prepend link_only set_next set_prev set_obj my402_list_empty my402_list_first
only_prepended l e o r f =
    let (alive, other) = old l [] e anchor r f refl in
    let none_yet : (l.num_members == 0) ≡ true = ground (arith, r.count) in
    simp (==_refl e, other, alive, none_yet)
      (Yields.yields _
        (between anchor e anchor o l _ _ other other (λ a. ground arith) (λ a. ground arith)))

pub prepended :
    (l : My402List) (e o x : ℕ) (xs : List ℕ)
    → Rep l (x ∷ xs)
    → IsFresh e l
    → Yields (Inserted anchor e x o l) (my402_list_prepend (some e) o l)
unfolding my402_list_prepend link_only set_next set_prev set_obj my402_list_empty my402_list_first
prepended l e o x xs r f =
    let (alive, other) = old l (x ∷ xs) e anchor r f refl in
    let at : l.next anchor ≡ x = (r.ring refl).0 in
    let (alive_x, other_x) = old l (x ∷ xs) e x r f (ground arith) in
    let none_yet : (l.num_members == 0) ≡ false = ground (arith, r.count) in
    let none_then : (l.num_members + 1 == 0) ≡ false = ground arith in
    simp (==_refl e, other, alive, none_yet, none_then, at, alive_x, other_x)
      (Yields.yields _
        (between anchor e x o l _ _ other other_x (λ a. ground arith) (λ a. ground arith)))

module _ (l : My402List) (e o x : ℕ) (ps qs : List ℕ) (r : Rep l (ps ++ x ∷ qs))
    (f : IsFresh e l) where
  here : has x (anchor ∷ ps ++ x ∷ qs) ≡ true
  here = let h = in_mid x ps qs in ground (arith, h)

  pub Inserted-after :
      Yields (Inserted x e (head_or qs) o l) (my402_list_insert_after (some e) o x l)
  unfolding my402_list_insert_after set_next set_prev set_obj get_next
  Inserted-after =
      let (alive, other) = old l (ps ++ x ∷ qs) e x r f here in
      let at : l.next x ≡ head_or qs = (Chain-at l anchor x ps qs (r.ring (not_nil x ps qs))).1 in
      let (alive_y, other_y) = old l (ps ++ x ∷ qs) e (head_or qs) r f (head_in x ps qs) in
      simp (==_refl e, other, alive, at, alive_y, other_y, not_zero l x ps qs r)
        (Yields.yields _
          (between x e (head_or qs) o l _ _ other other_y (λ a. ground arith) (λ a. ground arith)))

  pub Inserted-before :
      Yields (Inserted (last_from anchor ps) e x o l) (my402_list_insert_before (some e) o x l)
  unfolding my402_list_insert_before set_next set_prev set_obj get_prev
  Inserted-before =
      let (alive, other) = old l (ps ++ x ∷ qs) e x r f here in
      let at : l.prev x ≡ last_from anchor ps =
        (Chain-at l anchor x ps qs (r.ring (not_nil x ps qs))).0 in
      let (alive_p, other_p) =
        old l (ps ++ x ∷ qs) e (last_from anchor ps) r f (last_in ps (x ∷ qs)) in
      simp (==_refl e, other, alive, at, alive_p, other_p, not_zero l x ps qs r)
        (Yields.yields _ (
          between (last_from anchor ps) e x o l _ _ other_p other (λ a. ground arith)
            (λ a. ground arith)))
