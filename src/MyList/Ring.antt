-- ===== src/MyList/Ring.antt =====
-- The ring of next and prev pointers through the anchor, and what an insertion and a removal make of it.
use csci.MyList.{anchor, My402List}
use csci.Prelude.{
  ◌-◌, sym, inr, inl, ◌∙◌, refl, ◌+◌, arith, ◌⊎◌, [], ◌≢◌, true, ◌||◌, false, ◌∷◌, is_nil, ◌++◌,
  ◌≡◌, List, ℕ,
}
use csci.Sched.{has}

abbrev pub Distinct : List ℕ → Type 0
Distinct [] = Unit
Distinct (x ∷ xs) = (has x xs ≡ false) × Distinct xs

-- From `x` the pointers lead through the elements to the anchor, and back.
abbrev pub Chain : My402List → ℕ → List ℕ → Type 0
Chain l x [] = (l.next x ≡ anchor) × (l.prev anchor ≡ x)
Chain l x (e ∷ es) = (l.next x ≡ e) × (l.prev e ≡ x) × Chain l e es

-- The element in front of, and behind, a place in the list.
abbrev pub last_from : ℕ → List ℕ → ℕ
last_from x [] = x
last_from x (e ∷ es) = last_from e es

abbrev pub head_or : List ℕ → ℕ
head_or [] = anchor
head_or (e ∷ es) = e

pub has-append : (a : ℕ) (xs ys : List ℕ) → has a (xs ++ ys) ≡ (has a xs || has a ys)
has-append a [] ys = refl
has-append a (x ∷ xs) ys = ground (arith, has-append a xs ys)

-- A chain is one still when the pointers between its elements are the same.
pub Chain-frame :
    (l l' : My402List) (x : ℕ) (es : List ℕ)
    → Chain l x es
    → ((a : ℕ) → has a (x ∷ es) ≡ true → l'.next a ≡ l.next a)
    → ((a : ℕ) → (a ≡ anchor) ⊎ (has a es ≡ true) → l'.prev a ≡ l.prev a)
    → Chain l' x es
Chain-frame l l' x [] (n, p) next prev = (next x (ground arith) ∙ n, prev anchor (inl refl) ∙ p)
Chain-frame l l' x (e ∷ es) (n, p, c) next prev = (
  next x (ground arith) ∙ n,
  prev e (inr (ground arith)) ∙ p,
  Chain-frame l l' e es c (λ a h. next a (ground (arith, h)))
      (λ a h. elim h [ inl i ↦ prev a (inl i) | inr i ↦ prev a (inr (ground (arith, i))) ]),
)

-- What an insertion of `e` between `x` and `y` does to the memory.
pub record Inserted (x e y o : ℕ) (l l' : My402List) : Type 0 where
  pub next_x : l'.next x ≡ e
  pub next_e : l'.next e ≡ y
  pub prev_e : l'.prev e ≡ x
  pub prev_y : l'.prev y ≡ e
  pub next_same : (a : ℕ) → a ≢ x → a ≢ e → l'.next a ≡ l.next a
  pub prev_same : (a : ℕ) → a ≢ y → a ≢ e → l'.prev a ≡ l.prev a
  pub obj_e : l'.obj e ≡ o
  pub obj_same : (a : ℕ) → a ≢ e → l'.obj a ≡ l.obj a
  pub live_e : l'.live e ≡ true
  pub live_same : (a : ℕ) → a ≢ e → l'.live a ≡ l.live a
  pub count : l'.num_members ≡ l.num_members + 1

not_in : (a b : ℕ) (xs : List ℕ) → has a xs ≡ false → has b xs ≡ true → b ≢ a
not_in a b xs out h e = let h' : has a xs ≡ true = rw (← e) h in absurd (ground (arith, out, h'))

pub in_last : (x : ℕ) (es : List ℕ) → has (last_from x es) (x ∷ es) ≡ true
in_last x [] = ground arith
in_last x (e ∷ es) = ground (arith, in_last e es)

-- What is in a list is not what is outside of it.
in_or_anchor :
    (x a : ℕ) (es : List ℕ)
    → x ≢ anchor
    → has x es ≡ false
    → (a ≡ anchor) ⊎ (has a es ≡ true)
    → a ≢ x
in_or_anchor x a es other out (inl i) = λ e. other (sym e ∙ i)
in_or_anchor x a es other out (inr i) = not_in x a es out i

fewer_front : (a : ℕ) (xs ys : List ℕ) → has a (xs ++ ys) ≡ false → has a xs ≡ false
fewer_front a xs ys h = ground (arith, h, has-append a xs ys)

not_head : (p : ℕ) (ps qs : List ℕ) → p ≢ anchor → has p (ps ++ qs) ≡ false → p ≢ head_or qs
not_head p ps [] other out = other
not_head p ps (q ∷ qs) other out = λ e.
    let h : (has p ps || has p (q ∷ qs)) ≡ false = sym (has-append p ps (q ∷ qs)) ∙ out in
    absurd (ground (arith, h, e))

-- The chain with `e` behind `ps`. Only a list that is not empty need be a chain before.
pub Chain-insert :
    {o : ℕ} (l l' : My402List) (x e : ℕ) (ps qs : List ℕ)
    → Inserted (last_from x ps) e (head_or qs) o l l'
    → (is_nil (ps ++ qs) ≡ false → Chain l x (ps ++ qs))
    → Distinct (x ∷ ps ++ qs)
    → has anchor (ps ++ qs) ≡ false
    → has e (x ∷ ps ++ qs) ≡ false
    → e ≢ anchor
    → Chain l' x (ps ++ e ∷ qs)
Chain-insert l l' x e [] [] i c d out new other = (i.next_x, i.prev_e, (i.next_e, i.prev_y))
Chain-insert l l' x e [] (q ∷ qs) i c d out new other =
    let (n, p, rest) = c refl in
    (
      i.next_x,
      i.prev_e,
      (
        i.next_e,
        i.prev_y,
        Chain-frame l l' q qs rest
            (λ a h.
              i.next_same a (not_in x a (q ∷ qs) d.0 h)
                (not_in e a (q ∷ qs) (ground (arith, new)) h))
            (λ a h.
              i.prev_same a (in_or_anchor q a qs (ground (arith, out)) d.1.0 h)
                (in_or_anchor e a qs other (ground (arith, new)) h)),
      ),
    )
Chain-insert l l' x e (p ∷ ps) qs i c d out new other =
    let (n, b, rest) = c refl in
    (
      i.next_same x
            (λ e.
              not_in x (last_from p ps) (p ∷ ps) (fewer_front x (p ∷ ps) qs d.0) (in_last p ps)
                (sym e))
            (ground (arith, new))
          ∙ n,
      i.prev_same p (not_head p ps qs (ground (arith, out)) d.1.0) (ground (arith, new)) ∙ b,
      Chain-insert l l' p e ps qs i (λ h. rest) d.1 (ground (arith, out)) (ground (arith, new))
          other,
    )

-- What the removal of `e` from between `x` and `y` does to the memory.
pub record Removed (x e y : ℕ) (l l' : My402List) : Type 0 where
  pub next_x : l'.next x ≡ y
  pub prev_y : l'.prev y ≡ x
  pub next_same : (a : ℕ) → a ≢ x → a ≢ e → l'.next a ≡ l.next a
  pub prev_same : (a : ℕ) → a ≢ y → a ≢ e → l'.prev a ≡ l.prev a
  pub obj_same : (a : ℕ) → l'.obj a ≡ l.obj a
  pub live_e : l'.live e ≡ false
  pub live_same : (a : ℕ) → a ≢ e → l'.live a ≡ l.live a
  pub count : l'.num_members ≡ l.num_members - 1

-- What is not in a list is not an element of it, nor in the list without the element.
pub not_mid : (x e : ℕ) (ps qs : List ℕ) → has x (ps ++ e ∷ qs) ≡ false → x ≢ e
not_mid x e ps qs h i =
    let h' : (has x ps || has x (e ∷ qs)) ≡ false = sym (has-append x ps (e ∷ qs)) ∙ h in
    absurd (ground (arith, h', i))

pub without_mid :
    (x e : ℕ) (ps qs : List ℕ) → has x (ps ++ e ∷ qs) ≡ false → has x (ps ++ qs) ≡ false
without_mid x e ps qs h =
    let h' : (has x ps || has x (e ∷ qs)) ≡ false = sym (has-append x ps (e ∷ qs)) ∙ h in
    has-append x ps qs ∙ ground (arith, h')

pub Chain-remove :
    (l l' : My402List) (x e : ℕ) (ps qs : List ℕ)
    → Removed (last_from x ps) e (head_or qs) l l'
    → Chain l x (ps ++ e ∷ qs)
    → Distinct (x ∷ ps ++ e ∷ qs)
    → has anchor (ps ++ e ∷ qs) ≡ false
    → Chain l' x (ps ++ qs)
Chain-remove l l' x e [] [] r c d out = (r.next_x, r.prev_y)
Chain-remove l l' x e [] (q ∷ qs) r (n, p, (n', p', c)) d out = (
  r.next_x,
  r.prev_y,
  Chain-frame l l' q qs c
      (λ a h.
        r.next_same a (not_in x a (q ∷ qs) (ground (arith, d.0)) h) (not_in e a (q ∷ qs) d.1.0 h))
      (λ a h.
        r.prev_same a (in_or_anchor q a qs (ground (arith, out)) d.1.1.0 h)
          (in_or_anchor e a qs (ground (arith, out)) (ground (arith, d.1.0)) h)),
)
Chain-remove l l' x e (p ∷ ps) qs r (n, b, c) d out =
    let x_out : has x (ps ++ e ∷ qs) ≡ false = ground (arith, d.0) in
    let p_out : has p (ps ++ e ∷ qs) ≡ false = d.1.0 in
    let x_e : x ≢ e = not_mid x e ps qs x_out in
    let p_e : p ≢ e = not_mid p e ps qs p_out in
    (
      r.next_same x
            (λ h.
              not_in x (last_from p ps) (p ∷ ps) (fewer_front x (p ∷ ps) (e ∷ qs) d.0)
                (in_last p ps) (sym h))
            x_e
          ∙ n,
      r.prev_same p (not_head p ps qs (ground (arith, out)) (without_mid p e ps qs p_out)) p_e ∙ b,
      Chain-remove l l' p e ps qs r c d.1 (ground (arith, out)),
    )

-- The pointers of an element of the ring.
pub Chain-at :
    (l : My402List) (x e : ℕ) (ps qs : List ℕ)
    → Chain l x (ps ++ e ∷ qs)
    → (l.prev e ≡ last_from x ps) × (l.next e ≡ head_or qs)
Chain-at l x e [] [] (n, p, (n', p')) = (p, n')
Chain-at l x e [] (q ∷ qs) (n, p, (n', p', c)) = (p, n')
Chain-at l x e (y ∷ ps) qs (n, p, c) = Chain-at l y e ps qs c

pub Chain-ends :
    (l : My402List) (x : ℕ) (es : List ℕ)
    → Chain l x es
    → (l.next x ≡ head_or es) × (l.prev anchor ≡ last_from x es)
Chain-ends l x [] c = c
Chain-ends l x (e ∷ es) (n, p, c) = (n, (Chain-ends l e es c).1)
