-- ===== src/MyList/Walk.antt =====
-- My402ListNext, My402ListFind and My402ListUnlinkAll: going through a list.
use csci.MyList.{
  my402_list_unlink, my402_list_init, my402_list_unlink_all, my402_list_find, get_obj, unlink_loop,
  find_loop, anchor, get_next, my402_list_empty, my402_list_last, My402List, my402_list_next,
  my402_list_first,
}
use csci.Sched.{has}
use csci.MyList.Unlink.{unlink-Without, Leaves-map, leaves, Without, Leaves}
use mathlib.Core.Path.{subst}
use mathlib.Core.List.{append_assoc}
use csci.Prelude.Outcome.{◌>>=◌, Outcome, done}
use csci.MyList.Rep.{not_zero, elsewhere, not_nil, in_mid, Rep}
use csci.MyList.Ring.{in_last, has-append, Chain-at, Chain-ends, last_from}
use csci.Prelude.{
  inr, inl, Bool-cases, ◌+◌, zero, sym, suc, ◌<◌, length, if◌then◌else◌, true, false, ==_refl, ◌==◌,
  refl, arith, ◌∙◌, ◌≡◌, [], ◌++◌, ◌∷◌, ℕ, List,
}

-- The first element, or NULL.
abbrev pub first_of : List ℕ → ℕ
first_of [] = 0
first_of (e ∷ es) = e

first-Rep : (l : My402List) (es : List ℕ) → Rep l es → my402_list_first l ≡ first_of es
unfolding my402_list_first my402_list_empty
first-Rep l [] r = ground (arith, r.count)
first-Rep l (e ∷ es) r =
    let some_in : (l.num_members == 0) ≡ false = ground (arith, r.count) in
    rw some_in (r.ring refl).0

last-Rep :
    (l : My402List) (e : ℕ) (es : List ℕ) → Rep l (e ∷ es) → my402_list_last l ≡ last_from e es
unfolding my402_list_last my402_list_empty
last-Rep l e es r =
    let some_in : (l.num_members == 0) ≡ false = ground (arith, r.count) in
    rw some_in (Chain-ends l anchor (e ∷ es) (r.ring refl)).1

last-append : (x e : ℕ) (ps qs : List ℕ) → last_from x (ps ++ e ∷ qs) ≡ last_from e qs
last-append x e [] qs = refl
last-append x e (p ∷ ps) qs = last-append p e ps qs

last_at :
    (l : My402List) (e : ℕ) (ps qs : List ℕ)
    → Rep l (ps ++ e ∷ qs)
    → my402_list_last l ≡ last_from e qs
last_at l e [] qs r = last-Rep l e qs r
last_at l e (p ∷ ps) qs r = last-Rep l p (ps ++ e ∷ qs) r ∙ last-append p e ps qs

-- My402ListNext gives the element behind `e`, or NULL behind the last.
pub next-Rep :
    (l : My402List) (e : ℕ) (ps qs : List ℕ)
    → Rep l (ps ++ e ∷ qs)
    → my402_list_next e l ≡ done (first_of qs)
unfolding my402_list_next get_next
next-Rep l e ps [] r =
    let last : my402_list_last l ≡ e = last_at l e ps [] r in rw (last, ==_refl e) refl
next-Rep l e ps (q ∷ qs) r =
    let last : my402_list_last l ≡ last_from q qs = last_at l e ps (q ∷ qs) r in
    let other : (last_from q qs == e) ≡ false = elsewhere l e (last_from q qs) ps (q ∷ qs) r (
      has-append (last_from q qs) (anchor ∷ ps) (q ∷ qs)
      ∙ (let h = in_last q qs in ground (arith, h))) in
    let alive : l.live e ≡ true = r.alive e (let h = in_mid e ps (q ∷ qs) in ground (arith, h)) in
    let next : l.next e ≡ q =
      (Chain-at l anchor e ps (q ∷ qs) (r.ring (not_nil e ps (q ∷ qs)))).1 in
    rw (last, other, alive, next) refl

-- The element behind the first, or NULL.
abbrev second_of : List ℕ → ℕ
second_of [] = 0
second_of (e ∷ es) = first_of es

-- Behind NULL there is nothing in an empty list, and this is where it is asked for.
next_null : (l : My402List) → Rep l [] → my402_list_next 0 l ≡ done 0
unfolding my402_list_next my402_list_last my402_list_empty
next_null l r =
    let none_in : (l.num_members == 0) ≡ true = ground (arith, r.count) in rw none_in refl

after_first :
    (l : My402List) (es : List ℕ) → Rep l es → my402_list_next (first_of es) l ≡ done (second_of es)
after_first l [] r = next_null l r
after_first l (e ∷ es) r = next-Rep l e [] es r

-- No element is left, and the memory of the elements is free, and of no other.
pub record AllFree (l : My402List) (es : List ℕ) (l' : My402List) : Type 0 where
  pub rep : Rep l' []
  pub freed : (a : ℕ) → has a es ≡ true → l'.live a ≡ false
  pub others : (a : ℕ) → has a es ≡ false → l'.live a ≡ l.live a

AllFree-cons :
    (l l1 l' : My402List) (e : ℕ) (es : List ℕ)
    → has e es ≡ false
    → Without l e es l1
    → AllFree l1 es l'
    → AllFree l (e ∷ es) l'
AllFree-cons l l1 l' e es out w f = record {
  rep = f.rep;
  freed = λ a h. elim (Bool-cases (has a es)) [
    | inl later ↦ f.freed a later
    | inr no_more ↦
        let same : a ≡ e = ground (arith, h, no_more) in
        f.others a no_more ∙ subst (λ b. l1.live b ≡ false) (sym same) w.freed
  ];
  others =
      λ a h. f.others a (ground (arith, h)) ∙ w.others a (λ eq. absurd (ground (arith, h, eq)));
}

-- A round of the loop, and the rest of it.
unlink_round :
    (fuel : ℕ) (l : My402List) (e : ℕ) (es : List ℕ) (o : Outcome My402List)
    → has e es ≡ false
    → Leaves (Without l e es) o
    → ((l1 : My402List)
        → Without l e es l1
        → Leaves (AllFree l1 es) (unlink_loop fuel (first_of es) (second_of es) l1))
    → Leaves (AllFree l (e ∷ es)) (
        o >>= λ l1.
        my402_list_next (first_of es) l1 >>= λ after. unlink_loop fuel (first_of es) after l1)
unlink_round fuel l e es o out (leaves l1 w) rest =
    rw (after_first l1 es w.rep)
      (Leaves-map (λ l' f. AllFree-cons l l1 l' e es out w f) (rest l1 w))

-- The loop of My402ListUnlinkAll at the first of `es`.
unlink_loop-Rep :
    (fuel : ℕ) (l : My402List) (es : List ℕ)
    → Rep l es
    → length es < fuel
    → Leaves (AllFree l es) (unlink_loop fuel (first_of es) (second_of es) l)
unfolding unlink_loop
unlink_loop-Rep zero l es r lt = absurd (omega (arith, lt))
unlink_loop-Rep (suc fuel) l [] r lt =
    Leaves.leaves l
      (record { rep = r; freed = λ a h. absurd (ground (arith, h)); others = λ a h. refl })
unlink_loop-Rep (suc fuel) l (e ∷ es) r lt =
    let nz : (e == 0) ≡ false = not_zero l e [] es r in
    rw nz (
      unlink_round fuel l e es (my402_list_unlink e l) r.distinct.1.0 (unlink-Without l e [] es r)
        λ l1 w. unlink_loop-Rep fuel l1 es w.rep (omega (arith, lt)))

init-AllFree :
    (l : My402List) (es : List ℕ) (o : Outcome My402List)
    → Leaves (AllFree l es) o
    → Leaves (AllFree l es) (o >>= λ l1. done (my402_list_init l1))
unfolding my402_list_init
init-AllFree l es o (leaves l1 f) = Leaves.leaves (my402_list_init l1) (record {
  rep = record {
    count = refl;
    ring = λ h. absurd (ground (arith, h));
    distinct = f.rep.distinct;
    alive = f.rep.alive;
    null = f.rep.null;
  };
  freed = f.freed;
  others = f.others;
})

-- My402ListUnlinkAll takes all elements from a list and frees their memory, and no other.
pub unlink_all-AllFree :
    (l : My402List) (es : List ℕ) → Rep l es → Leaves (AllFree l es) (my402_list_unlink_all l)
unfolding my402_list_unlink_all my402_list_init
unlink_all-AllFree l es r =
    simp (first-Rep l es r, after_first l es r)
      (init-AllFree l es (unlink_loop (l.num_members + 1) (first_of es) (second_of es) l)
        (unlink_loop-Rep (l.num_members + 1) l es r (omega (arith, r.count))))

-- The first element that has the object `o`, or NULL.
abbrev pub first_with : (ℕ → ℕ) → ℕ → List ℕ → ℕ
first_with obj o [] = 0
first_with obj o (e ∷ es) = if obj e == o then e else first_with obj o es

find_loop-Rep :
    (fuel o : ℕ) (l : My402List) (ps es : List ℕ)
    → Rep l (ps ++ es)
    → length es < fuel
    → find_loop fuel o (first_of es) l ≡ done (first_with l.obj o es)
unfolding find_loop get_obj
find_loop-Rep zero o l ps es r lt = absurd (omega (arith, lt))
find_loop-Rep (suc fuel) o l ps [] r lt = refl
find_loop-Rep (suc fuel) o l ps (e ∷ es) r lt =
    let nz : (e == 0) ≡ false = not_zero l e ps es r in
    let alive : l.live e ≡ true = r.alive e (let h = in_mid e ps es in ground (arith, h)) in
    let next = next-Rep l e ps es r in
    let rest =
      find_loop-Rep fuel o l (ps ++ e ∷ []) es (subst (Rep l) (sym (append_assoc ps (e ∷ []) es)) r)
        (omega (arith, lt)) in
    simp (nz, alive, next, rest)
      (elim (Bool-cases (l.obj e == o)) [ inl same ↦ rw same refl | inr other ↦ rw other refl ])

-- My402ListFind gives the first element with the object, or NULL.
pub find-first :
    (o : ℕ) (l : My402List) (es : List ℕ)
    → Rep l es
    → my402_list_find o l ≡ done (first_with l.obj o es)
unfolding my402_list_find
find-first o l es r =
    rw (first-Rep l es r) (find_loop-Rep (l.num_members + 1) o l [] es r (omega (arith, r.count)))
