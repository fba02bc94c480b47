-- ===== src/MyList/Rep.antt =====
-- What a list in the memory stands for: its elements, in order.
use csci.MyList.{anchor, My402List}
use mathlib.Core.Path.{subst}
use csci.MyList.Ring.{
  in_last, Chain-remove, not_mid, Chain-insert, head_or, Inserted, last_from, has-append, Removed,
  Chain, without_mid, Distinct,
}
use csci.Sched.{has}
use csci.Prelude.{
  refl, ==_iff, inr, ◌∙◌, inl, [], true, Bool-cases, arith, ◌||◌, sym, ◌≢◌, ◌==◌, ◌+◌, false,
  is_nil, ◌∷◌, ◌≡◌, length, ◌++◌, List, ℕ,
}

-- The list in the memory has the elements `es`.
pub record Rep (l : My402List) (es : List ℕ) : Type 0 where
  pub count : l.num_members ≡ length es
  pub ring : is_nil es ≡ false → Chain l anchor es
  pub distinct : Distinct (anchor ∷ es)
  pub alive : (a : ℕ) → has a (anchor ∷ es) ≡ true → l.live a ≡ true
  pub null : l.live 0 ≡ false

Distinct-with :
    (e : ℕ) (ps qs : List ℕ)
    → Distinct (ps ++ qs)
    → has e (ps ++ qs) ≡ false
    → Distinct (ps ++ e ∷ qs)
Distinct-with e [] qs d out = (out, d)
Distinct-with e (p ∷ ps) qs d out = (
  (let h = sym (has-append p ps qs) ∙ d.0 in has-append p ps (e ∷ qs) ∙ ground (arith, h, out)),
  Distinct-with e ps qs d.1 (ground (arith, out)),
)

Distinct-without : (e : ℕ) (ps qs : List ℕ) → Distinct (ps ++ e ∷ qs) → Distinct (ps ++ qs)
Distinct-without e [] qs d = d.1
Distinct-without e (p ∷ ps) qs d = (without_mid p e ps qs d.0, Distinct-without e ps qs d.1)

length_with : (e : ℕ) (ps qs : List ℕ) → length (ps ++ e ∷ qs) ≡ length (ps ++ qs) + 1
length_with e [] qs = omega arith
length_with e (p ∷ ps) qs = omega (arith, length_with e ps qs)

-- An element that is not allocated is not in the list.
pub not_alive :
    (l : My402List) (es : List ℕ) (e : ℕ)
    → Rep l es
    → l.live e ≡ false
    → has e (anchor ∷ es) ≡ false
not_alive l es e r dead = elim (Bool-cases (has e (anchor ∷ es))) [
  | inl h ↦ let alive : l.live e ≡ true = r.alive e h in absurd (ground (arith, dead, alive))
  | inr h ↦ h
]

-- An element is in the list with `e` if it is `e` or in the list without.
has_with : (a e : ℕ) (ps qs : List ℕ) → has a (ps ++ e ∷ qs) ≡ (e == a || has a (ps ++ qs))
has_with a e ps qs = has-append a ps (e ∷ qs) ∙ (let h = has-append a ps qs in ground (arith, h))

module _ (l l' : My402List) (e o : ℕ) (ps qs : List ℕ) where
  pub Inserted-Rep :
      Rep l (ps ++ qs)
      → l.live e ≡ false
      → e ≢ 0
      → Inserted (last_from anchor ps) e (head_or qs) o l l'
      → Rep l' (ps ++ e ∷ qs)
  Inserted-Rep r dead not_null i =
      let out = not_alive l (ps ++ qs) e r dead in
      let other : e ≢ anchor = ground (arith, out) in
      record {
        count = i.count ∙ omega (arith, r.count, length_with e ps qs);
        ring = λ h. Chain-insert l l' anchor e ps qs i r.ring r.distinct r.distinct.0 out other;
        distinct = Distinct-with e (anchor ∷ ps) qs r.distinct out;
        alive = λ a h. elim (Bool-cases (a == e)) [
          | inl same ↦ let eq : a ≡ e = (==_iff a e).0 same in rw eq i.live_e
          | inr ne ↦
              i.live_same a (λ eq. absurd (ground (arith, ne, eq)))
              ∙ r.alive a (let m = has_with a e ps qs in ground (arith, h, m, ne))
        ];
        null = i.live_same 0 (λ h. not_null (sym h)) ∙ r.null;
      }

pub not_nil : (e : ℕ) (ps qs : List ℕ) → is_nil (ps ++ e ∷ qs) ≡ false
not_nil e [] qs = refl
not_nil e (p ∷ ps) qs = refl

pub once : (e : ℕ) (ps qs : List ℕ) → Distinct (ps ++ e ∷ qs) → has e (ps ++ qs) ≡ false
once e [] qs d = d.0
once e (p ∷ ps) qs d =
    let h = sym (has-append p ps (e ∷ qs)) ∙ d.0 in ground (arith, h, once e ps qs d.1)

pub in_mid : (e : ℕ) (ps qs : List ℕ) → has e (ps ++ e ∷ qs) ≡ true
in_mid e ps qs = has_with e e ps qs ∙ ground arith

pub Removed-Rep :
    (l l' : My402List) (e : ℕ) (ps qs : List ℕ)
    → Rep l (ps ++ e ∷ qs)
    → Removed (last_from anchor ps) e (head_or qs) l l'
    → Rep l' (ps ++ qs)
Removed-Rep l l' e ps qs r m =
    let out = once e ps qs r.distinct.1 in
    let in_list : has e (anchor ∷ ps ++ e ∷ qs) ≡ true =
      let h = in_mid e ps qs in ground (arith, h) in
    let e_live : l.live e ≡ true = r.alive e in_list in
    let other : (anchor == e) ≡ false = ground (arith, not_mid anchor e ps qs r.distinct.0) in
    record {
      count = m.count ∙ omega (arith, r.count, length_with e ps qs);
      ring = λ h.
          Chain-remove l l' anchor e ps qs m (r.ring (not_nil e ps qs)) r.distinct r.distinct.0;
      distinct = (without_mid anchor e ps qs r.distinct.0, Distinct-without e ps qs r.distinct.1);
      alive = λ a h.
          let ne : a ≢ e = λ eq.
            (let h' : has e (anchor ∷ ps ++ qs) ≡ true =
                subst (λ b. has b (anchor ∷ ps ++ qs) ≡ true) eq h in
              absurd (ground (arith, h', out, other))) in
          m.live_same a ne ∙ r.alive a (let w = has_with a e ps qs in ground (arith, h, w));
      null =
          m.live_same 0
            (λ eq. (let h : l.live 0 ≡ true = rw eq e_live in absurd (ground (arith, h, r.null))))
          ∙ r.null;
    }

-- The neighbours of an element are in the ring.
pub head_in : (x : ℕ) (ps qs : List ℕ) → has (head_or qs) (anchor ∷ ps ++ x ∷ qs) ≡ true
head_in x ps [] = refl
head_in x ps (q ∷ qs) = let h = has-append q ps (x ∷ q ∷ qs) in ground (arith, h)

pub last_in : (ps es : List ℕ) → has (last_from anchor ps) (anchor ∷ ps ++ es) ≡ true
last_in ps es =
    has-append (last_from anchor ps) (anchor ∷ ps) es
    ∙ (let h = in_last anchor ps in ground (arith, h))

-- What is in the ring without an element is not the element.
pub elsewhere :
    (l : My402List) (e a : ℕ) (ps qs : List ℕ)
    → Rep l (ps ++ e ∷ qs)
    → has a (anchor ∷ ps ++ qs) ≡ true
    → (a == e) ≡ false
elsewhere l e a ps qs r h =
    let out = once e ps qs r.distinct.1 in
    let other : (anchor == e) ≡ false = ground (arith, not_mid anchor e ps qs r.distinct.0) in
    elim (Bool-cases (a == e)) [
      | inl same ↦
          let eq : a ≡ e = (==_iff a e).0 same in
          let h' : has e (anchor ∷ ps ++ qs) ≡ true =
            subst (λ b. has b (anchor ∷ ps ++ qs) ≡ true) eq h in
          absurd (ground (arith, h', out, other))
      | inr ne ↦ ne
    ]

pub head_in_rest : (ps qs : List ℕ) → has (head_or qs) (anchor ∷ ps ++ qs) ≡ true
head_in_rest ps [] = refl
head_in_rest ps (q ∷ qs) = let h = has-append q ps (q ∷ qs) in ground (arith, h)

-- An element of a list is not NULL.
pub not_zero : (l : My402List) (x : ℕ) (ps qs : List ℕ) → Rep l (ps ++ x ∷ qs) → (x == 0) ≡ false
not_zero l x ps qs r = elim (Bool-cases (x == 0)) [
  | inl z ↦
      let eq : x ≡ 0 = (==_iff x 0).0 z in
      let alive : l.live x ≡ true = r.alive x (let h = in_mid x ps qs in ground (arith, h)) in
      let alive' : l.live 0 ≡ true = subst (λ b. l.live b ≡ true) eq alive in
      absurd (ground (arith, alive', r.null))
  | inr nz ↦ nz
]
