-- ===== src/MyList/Refines.antt =====
-- The list in the memory against lists of elements: every operation does in the memory what it does to
-- the list that the memory stands for.
use csci.MyList.Ring.{has-append, head_or, last_from, Inserted}
use csci.MyList.Unlink.{unlink-Without, leaves, Without, Leaves}
use csci.Prelude.Outcome.{done, ◌>>=◌, Outcome}
use csci.MyList.Rep.{Inserted-Rep, not_alive, Rep}
use csci.MyList.Insert.{
  Inserted-after, prepended, Inserted-before, only_prepended, yields, appended, only, Yields,
  IsFresh,
}
use csci.MyList.{
  my402_list_unlink, my402_list_insert_after, my402_list_insert_before, my402_list_prepend, anchor,
  my402_list_append, My402List,
}
use csci.Prelude.{
  none, Option, true, sym, arith, some, ◌≢◌, refl, false, Bool, [], ◌∙◌, ap, ◌≡◌, ◌++◌, ◌∷◌, List,
  ℕ,
}
use mathlib.Core.Path.{subst}
use mathlib.Core.List.{append-nil, append_assoc}
use csci.Sched.{has}

-- The calls that change a list; an insertion has the object, and the element that it is at.
pub data Call : Type 0 where
  append prepend : ℕ → Call
  insert_after insert_before : ℕ → ℕ → Call
  unlink : ℕ → Call

-- The value that an insertion returns.
abbrev pub told : Outcome (Bool × My402List) → Outcome (Option Bool × My402List)
told out = do r ← out; done (some r.0, r.1)

-- A call, with an address that malloc has for it. My402ListUnlink returns no value.
abbrev pub run : Call → ℕ → My402List → Outcome (Option Bool × My402List)
run (append o) e l = told (my402_list_append (some e) o l)
run (prepend o) e l = told (my402_list_prepend (some e) o l)
run (insert_after o x) e l = told (my402_list_insert_after (some e) o x l)
run (insert_before o x) e l = told (my402_list_insert_before (some e) o x l)
run (unlink x) e l = do l' ← my402_list_unlink x l; done (none, l')

-- TRUE for an insertion.
abbrev pub answer : Call → Option Bool
answer (unlink x) = none
answer (append o) = some true
answer (prepend o) = some true
answer (insert_after o x) = some true
answer (insert_before o x) = some true

-- A call that returns the value `a`, if it is one, and a list with a property.
pub data Answers (P : My402List → Type 0) (a : Option Bool)
    : Outcome (Option Bool × My402List) → Type 0 where
  answers : (l : My402List) → P l → Answers P a (done (a, l))

told-Answers :
    (P : My402List → Type 0) (out : Outcome (Bool × My402List))
    → Yields P out
    → Answers P (some true) (told out)
told-Answers P out (yields l h) = Answers.answers l h

-- What a call does to a list of elements with their objects. `e` is the address of a new element.
pub data Does (e : ℕ) : Call → List (ℕ × ℕ) → List (ℕ × ℕ) → Type 0 where
  appends : (o : ℕ) (cs : List (ℕ × ℕ)) → Does e (append o) cs (cs ++ (e, o) ∷ [])
  prepends : (o : ℕ) (cs : List (ℕ × ℕ)) → Does e (prepend o) cs ((e, o) ∷ cs)
  inserts_after :
      (o x p : ℕ) (front back : List (ℕ × ℕ))
      → Does e (insert_after o x) (front ++ (x, p) ∷ back) (front ++ (x, p) ∷ (e, o) ∷ back)
  inserts_before :
      (o x p : ℕ) (front back : List (ℕ × ℕ))
      → Does e (insert_before o x) (front ++ (x, p) ∷ back) (front ++ (e, o) ∷ (x, p) ∷ back)
  unlinks :
      (x p : ℕ) (front back : List (ℕ × ℕ))
      → Does e (unlink x) (front ++ (x, p) ∷ back) (front ++ back)

abbrev pub elements : List (ℕ × ℕ) → List ℕ
elements [] = []
elements (c ∷ cs) = c.0 ∷ elements cs

abbrev pub Holds : (ℕ → ℕ) → List (ℕ × ℕ) → Type 0
Holds obj [] = Unit
Holds obj (c ∷ cs) = (obj c.0 ≡ c.1) × Holds obj cs

-- The memory stands for a list of elements with their objects.
pub record StandsFor (l : My402List) (cs : List (ℕ × ℕ)) : Type 0 where
  pub rep : Rep l (elements cs)
  pub objects : Holds l.obj cs

elements-append :
    (front back : List (ℕ × ℕ)) → elements (front ++ back) ≡ elements front ++ elements back
elements-append [] back = refl
elements-append (a ∷ front) back = ap (λ l. a.0 ∷ l) (elements-append front back)

Holds-append :
    (obj : ℕ → ℕ) (front back : List (ℕ × ℕ))
    → Holds obj front
    → Holds obj back
    → Holds obj (front ++ back)
Holds-append obj [] back h h' = h'
Holds-append obj (a ∷ front) back h h' = (h.0, Holds-append obj front back h.1 h')

Holds-parts :
    (obj : ℕ → ℕ) (front back : List (ℕ × ℕ))
    → Holds obj (front ++ back)
    → Holds obj front × Holds obj back
Holds-parts obj [] back h = (tt, h)
Holds-parts obj (a ∷ front) back h = let (x, y) = Holds-parts obj front back h.1 in ((h.0, x), y)

-- Objects of elements other than the new one stay.
Holds-same :
    (obj obj' : ℕ → ℕ) (e : ℕ) (cs : List (ℕ × ℕ))
    → has e (elements cs) ≡ false
    → ((a : ℕ) → a ≢ e → obj' a ≡ obj a)
    → Holds obj cs
    → Holds obj' cs
Holds-same obj obj' e [] out same h = tt
Holds-same obj obj' e (c ∷ cs) out same h = (
  same c.0 (λ eq. absurd (ground (arith, out, eq))) ∙ h.0,
  Holds-same obj obj' e cs (ground (arith, out)) same h.1,
)

Holds-kept :
    (obj obj' : ℕ → ℕ) (cs : List (ℕ × ℕ))
    → ((a : ℕ) → obj' a ≡ obj a)
    → Holds obj cs
    → Holds obj' cs
Holds-kept obj obj' [] same h = tt
Holds-kept obj obj' (c ∷ cs) same h = (same c.0 ∙ h.0, Holds-kept obj obj' cs same h.1)

-- An insertion of `e` between two parts of a list.
inserted :
    (l : My402List) (e o : ℕ) (front back : List (ℕ × ℕ)) (out : Outcome (Bool × My402List))
    → StandsFor l (front ++ back)
    → IsFresh e l
    → Yields (Inserted (last_from anchor (elements front)) e (head_or (elements back)) o l) out
    → Yields (λ l'. StandsFor l' (front ++ (e, o) ∷ back)) out
inserted l e o front back out s f (yields l' i) =
    let r : Rep l (elements front ++ elements back) =
      subst (Rep l) (elements-append front back) s.rep in
    let new = not_alive l (elements front ++ elements back) e r f.0 in
    let (ha, hb) = Holds-parts l.obj front back s.objects in
    let out_front : has e (elements front) ≡ false =
      let h = has-append e (elements front) (elements back) in ground (arith, new, h) in
    let out_back : has e (elements back) ≡ false =
      let h = has-append e (elements front) (elements back) in ground (arith, new, h) in
    Yields.yields l' (record {
      rep =
          subst (Rep l') (sym (elements-append front ((e, o) ∷ back)))
            (Inserted-Rep l l' e o (elements front) (elements back) r f.0 f.1 i);
      objects =
          Holds-append l'.obj front ((e, o) ∷ back)
            (Holds-same l.obj l'.obj e front out_front i.obj_same ha)
            (i.obj_e, Holds-same l.obj l'.obj e back out_back i.obj_same hb);
    })

last-snoc : (a x p : ℕ) (front : List (ℕ × ℕ)) → last_from a (elements (front ++ (x, p) ∷ [])) ≡ x
last-snoc a x p [] = refl
last-snoc a x p (c ∷ cs) = last-snoc c.0 x p cs

removed :
    (l : My402List) (x p : ℕ) (front back : List (ℕ × ℕ)) (out : Outcome My402List)
    → StandsFor l (front ++ (x, p) ∷ back)
    → Leaves (Without l x (elements front ++ elements back)) out
    → Answers (λ l'. StandsFor l' (front ++ back)) none (out >>= λ l'. done (none, l'))
removed l x p front back out s (leaves l' w) =
    let (hf, hb) = Holds-parts l.obj front ((x, p) ∷ back) s.objects in
    Answers.answers l' (record {
      rep = subst (Rep l') (sym (elements-append front back)) w.rep;
      objects =
          Holds-append l'.obj front back (Holds-kept l.obj l'.obj front w.objects hf)
            (Holds-kept l.obj l'.obj back w.objects hb.1);
    })

at_element :
    (l : My402List) (x p : ℕ) (front back : List (ℕ × ℕ))
    → StandsFor l (front ++ (x, p) ∷ back)
    → Rep l (elements front ++ x ∷ elements back)
at_element l x p front back s = subst (Rep l) (elements-append front ((x, p) ∷ back)) s.rep

appending :
    (l : My402List) (e o : ℕ) (es : List ℕ)
    → Rep l es
    → IsFresh e l
    → Yields (Inserted (last_from anchor es) e anchor o l) (my402_list_append (some e) o l)
appending l e o [] r f = only l e o r f
appending l e o (x ∷ xs) r f = appended l e o x xs r f

prepending :
    (l : My402List) (e o : ℕ) (es : List ℕ)
    → Rep l es
    → IsFresh e l
    → Yields (Inserted anchor e (head_or es) o l) (my402_list_prepend (some e) o l)
prepending l e o [] r f = only_prepended l e o r f
prepending l e o (x ∷ xs) r f = prepended l e o x xs r f

-- An insertion into a list in the memory returns TRUE, an unlinking returns, and then the memory stands for what
-- the call makes of the list of elements with their objects. The element that an insertion is at, or that is unlinked, is in the list, and
-- malloc gives an address that is not NULL and not in use.
pub run-Does :
    (call : Call) (e : ℕ) (l : My402List) (cs cs' : List (ℕ × ℕ))
    → StandsFor l cs
    → IsFresh e l
    → Does e call cs cs'
    → Answers (λ l'. StandsFor l' cs') (answer call) (run call e l)
run-Does call e l cs cs' s f (appends o _) =
    told-Answers (λ l'. StandsFor l' (cs ++ (e, o) ∷ [])) (my402_list_append (some e) o l)
      (inserted l e o cs [] (my402_list_append (some e) o l)
        (subst (StandsFor l) (sym (append-nil cs)) s) f (appending l e o (elements cs) s.rep f))
run-Does call e l cs cs' s f (prepends o _) =
    told-Answers (λ l'. StandsFor l' ((e, o) ∷ cs)) (my402_list_prepend (some e) o l)
      (inserted l e o [] cs (my402_list_prepend (some e) o l) s f
        (prepending l e o (elements cs) s.rep f))
run-Does call e l cs cs' s f (inserts_after o x p front back) =
    let shift = append_assoc front ((x, p) ∷ []) in
    told-Answers (λ l'. StandsFor l' (front ++ (x, p) ∷ (e, o) ∷ back))
      (my402_list_insert_after (some e) o x l)
      (subst (λ cs'. Yields (λ l'. StandsFor l' cs') (my402_list_insert_after (some e) o x l))
        (shift ((e, o) ∷ back))
        (inserted l e o (front ++ (x, p) ∷ []) back (my402_list_insert_after (some e) o x l)
          (subst (StandsFor l) (sym (shift back)) s) f
          (subst
            (λ y.
              Yields (Inserted y e (head_or (elements back)) o l)
                (my402_list_insert_after (some e) o x l))
            (sym (last-snoc anchor x p front))
            (Inserted-after l e o x (elements front) (elements back) (at_element l x p front back s)
              f))))
run-Does call e l cs cs' s f (inserts_before o x p front back) =
    told-Answers (λ l'. StandsFor l' (front ++ (e, o) ∷ (x, p) ∷ back))
      (my402_list_insert_before (some e) o x l)
      (inserted l e o front ((x, p) ∷ back) (my402_list_insert_before (some e) o x l) s f (
        Inserted-before l e o x (elements front) (elements back) (at_element l x p front back s) f))
run-Does call e l cs cs' s f (unlinks x p front back) =
    removed l x p front back (my402_list_unlink x l) s
      (unlink-Without l x (elements front) (elements back) (at_element l x p front back s))
