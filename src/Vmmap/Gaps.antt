-- ===== src/Vmmap/Gaps.antt =====
-- The loops of vmmap_find_range of Homework/Kernel/vm/vmmap.c: the gaps that they find, from the
-- head up and from the tail down.
use mathlib.Core.List.{reverse_aux}
use csci.Prelude.{
  get_last?, ℕ, ◌+◌, ◌-◌, ◌≤◌, ◌<◌, ◌^◌, ◌≡◌, refl, inl, inr, none, some, List, [], ◌∷◌, arith, All,
}
use csci.Prelude.Words.{sub32-eq-sub}
use csci.Vmmap.{Vmarea, scan_down, scan_up}
use csci.Vmmap.Sorted.{Chain, Free}

-- A range below the first area is free.
pub Free-below : (lo hi a b : ℕ) (vs : List Vmarea) → Chain lo hi vs → b ≤ lo → Free a b vs
Free-below lo hi a b [] c h = tt
Free-below lo hi a b (v ∷ vs) c h =
    (inr (omega arith), Free-below v.end hi a b vs c.3 (omega arith))

module _ (hi n : ℕ) (hb : hi < 2 ^ 31) (np : 0 < n) where
  pub up_some :
      (pre r : ℕ) (vs : List Vmarea)
      → Chain pre hi vs
      → 0 < pre
      → scan_up n pre vs ≡ some r
      → (pre ≤ r) × (r + n ≤ hi) × Free r (r + n) vs
  unfolding scan_up
  up_some pre r [] c p e = cc
  up_some pre r (v ∷ vs) c p e = ground (
    arith,
    sub32-eq-sub v.start pre,
    up_some v.end r vs c.3,
    Free-below v.end hi pre (pre + n) vs c.3,
  )

  pub up_least :
      (pre r x : ℕ) (vs : List Vmarea)
      → Chain pre hi vs
      → 0 < pre
      → scan_up n pre vs ≡ some r
      → pre ≤ x
      → Free x (x + n) vs
      → r ≤ x
  unfolding scan_up
  up_least pre r x [] c p e h f = cc
  up_least pre r x (v ∷ vs) c p e h f =
      ground (arith, sub32-eq-sub v.start pre, up_least v.end r x vs c.3)

  -- Without a wide gap before the tail, a free range starts behind the tail.
  pub up_none :
      (pre : ℕ) (v : Vmarea) (vs : List Vmarea)
      → Chain pre hi (v ∷ vs)
      → 0 < pre
      → scan_up n pre (v ∷ vs) ≡ none
      → (t : Vmarea) × (get_last? (v ∷ vs) ≡ some t)
        × (pre ≤ t.end)
        × (t.end ≤ hi)
        × Free t.end (t.end + n) (v ∷ vs)
        × ((x : ℕ) → pre ≤ x → Free x (x + n) (v ∷ vs) → t.end ≤ x)
  unfolding scan_up
  up_none pre v [] c p e = (
    v,
    refl,
    omega arith,
    c.2,
    (inl (omega arith), tt),
    λ x h f. ground (arith, sub32-eq-sub v.start pre),
  )
  up_none pre v (w ∷ vs) c p e =
      let narrow : v.start - pre < n = ground (arith, sub32-eq-sub v.start pre) in
      let (t, last, a, b, f, least) =
        up_none v.end w vs c.3 (omega arith) (ground (arith, sub32-eq-sub v.start pre)) in
      (t, last, omega arith, b, (inl a, f), λ x h g. least x (ground arith) g.1)

-- The areas from the tail down: each ends where the one before starts, or below.
abbrev pub Down : ℕ → ℕ → List Vmarea → Type 0
Down lo hi [] = Unit {0}
Down lo hi (v ∷ vs) = (v.end ≤ hi) × (v.start < v.end) × (lo ≤ v.start) × Down lo v.start vs

Down-mono : (lo hi hi' : ℕ) (vs : List Vmarea) → hi ≤ hi' → Down lo hi vs → Down lo hi' vs
Down-mono lo hi hi' [] h d = tt
Down-mono lo hi hi' (v ∷ vs) h d = (omega arith, d.1, d.2, d.3)

pub reverse_aux-Down :
    (lo mid hi : ℕ) (xs ys : List Vmarea)
    → Chain mid hi xs
    → Down lo mid ys
    → lo ≤ mid
    → mid ≤ hi
    → Down lo hi (reverse_aux xs ys)
reverse_aux-Down lo mid hi [] ys c d h k = Down-mono lo mid hi ys k d
reverse_aux-Down lo mid hi (x ∷ xs) ys c d h k =
    reverse_aux-Down lo x.end hi xs (x ∷ ys) c.3
      (omega arith, c.1, omega arith, Down-mono lo mid x.start ys c.0 d) (omega arith) c.2

pub All-reverse_aux :
    (P : Vmarea → Type 0) (xs ys : List Vmarea) → All P (reverse_aux xs ys) → All P xs × All P ys
All-reverse_aux P [] ys a = (tt, a)
All-reverse_aux P (x ∷ xs) ys a = let (p, q) = All-reverse_aux P xs (x ∷ ys) a in ((q.0, p), q.1)

pub reverse_aux-All :
    (P : Vmarea → Type 0) (xs ys : List Vmarea) → All P xs → All P ys → All P (reverse_aux xs ys)
reverse_aux-All P [] ys a b = b
reverse_aux-All P (x ∷ xs) ys a b = reverse_aux-All P xs (x ∷ ys) a.1 (a.0, b)

-- A range above the areas is free.
Free-above : (lo hi a b : ℕ) (vs : List Vmarea) → Down lo hi vs → hi ≤ a → Free a b vs
Free-above lo hi a b [] d h = tt
Free-above lo hi a b (v ∷ vs) d h =
    (inl (omega arith), Free-above lo v.start a b vs d.3 (omega arith))

module _ (lo n : ℕ) (np : 0 < n) where
  pub Down-some :
      (pre r : ℕ) (vs : List Vmarea)
      → Down lo pre vs
      → lo ≤ pre
      → pre < 2 ^ 31
      → scan_down n pre vs ≡ some r
      → (lo ≤ r) × (r + n ≤ pre) × Free r (r + n) vs
  unfolding scan_down
  Down-some pre r [] d l b e = cc
  Down-some pre r (v ∷ vs) d l b e = ground (
    arith,
    sub32-eq-sub pre v.end,
    sub32-eq-sub pre n,
    Down-some v.start r vs d.3,
    Free-above lo v.start (pre - n) (pre - n + n) vs d.3,
  )

  pub Down-greatest :
      (pre r x : ℕ) (vs : List Vmarea)
      → Down lo pre vs
      → lo ≤ pre
      → pre < 2 ^ 31
      → scan_down n pre vs ≡ some r
      → x + n ≤ pre
      → Free x (x + n) vs
      → x ≤ r
  unfolding scan_down
  Down-greatest pre r x [] d l b e h f = cc
  Down-greatest pre r x (v ∷ vs) d l b e h f =
      ground (arith, sub32-eq-sub pre v.end, sub32-eq-sub pre n, Down-greatest v.start r x vs d.3)

  -- Without a wide gap above the head, a free range ends below every area.
  pub Down-none :
      (pre x : ℕ) (vs : List Vmarea)
      → Down lo pre vs
      → lo ≤ pre
      → pre < 2 ^ 31
      → scan_down n pre vs ≡ none
      → x + n ≤ pre
      → Free x (x + n) vs
      → All (λ v. x + n ≤ v.start) vs
  unfolding scan_down
  Down-none pre x [] d l b e h f = tt
  Down-none pre x (v ∷ vs) d l b e h f =
      let below : x + n ≤ v.start = ground (arith, sub32-eq-sub pre v.end) in
      (
        below,
        Down-none v.start x vs d.3 d.2 (omega arith) (ground (arith, sub32-eq-sub pre v.end)) below
            f.1,
      )
