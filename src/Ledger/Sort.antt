-- ===== src/Ledger/Sort.antt =====
-- BubbleSortForwardList: the order of the result, and when there is one.
use mathlib.Core.Path.{subst}
use csci.Ledger.{bubble_rounds, bubble_sort, bubble_pass, Transaction}
use csci.Prelude.{
  sym, refl, Bool-cases, inr, inl, ltb, ◌⊎◌, none, some, ap, arith, true, Option, length, ◌+◌,
  false, ◌==◌, ◌≡◌, [], if◌then◌else◌, zero, All, Bool, ◌<◌, ◌≤◌, ◌∷◌, suc, List, ℕ,
}
use mathlib.Core.List.{Perm}
use mathlib.Core.List.Perm

-- Later than `t`.
abbrev pub Later : ℕ → Transaction → Type 0
Later t x = t < x.timestamp

-- Timestamps that rise.
abbrev pub Rises : List Transaction → Type 0
Rises [] = Unit {0}
Rises (x ∷ xs) = All (Later x.timestamp) xs × Rises xs

-- From index `k` on, everything is later than `t`.
abbrev LaterFrom : ℕ → ℕ → List Transaction → Type 0
LaterFrom t zero xs = All (Later t) xs
LaterFrom t (suc k) [] = Unit {0}
LaterFrom t (suc k) (x ∷ xs) = LaterFrom t k xs

-- From index `k` on, the timestamps rise and are later than all before.
abbrev RisesFrom : ℕ → List Transaction → Type 0
RisesFrom zero xs = Rises xs
RisesFrom (suc k) [] = Unit {0}
RisesFrom (suc k) (x ∷ xs) = LaterFrom x.timestamp k xs × RisesFrom k xs

-- How many transactions have the timestamp `t`.
abbrev pub at_time : ℕ → List Transaction → ℕ
at_time t [] = 0
at_time t (x ∷ xs) = (if x.timestamp == t then 1 else 0) + at_time t xs

-- No two transactions have the same timestamp.
abbrev pub IsDistinct : List Transaction → Type 0
IsDistinct xs = (t : ℕ) → at_time t xs ≤ 1

-- What is said of a pass with `k` comparisons over `x ∷ r`.
record Passed (k : ℕ) (x : Transaction) (r : List Transaction) (o : Bool × List Transaction)
    : Type 0 where
  later : (t : ℕ) → Later t x → LaterFrom t k r → LaterFrom t k o.1
  rises : LaterFrom x.timestamp k r → RisesFrom k r → RisesFrom k o.1
  same : o.0 ≡ false → o.1 ≡ x ∷ r
  ordered : o.0 ≡ false → LaterFrom x.timestamp k r → RisesFrom k r → Rises (x ∷ r)
  perm : Perm o.1 (x ∷ r)
  times : (t : ℕ) → at_time t o.1 ≡ at_time t (x ∷ r)
  size : length o.1 ≡ length (x ∷ r)

All-Later : (s t : ℕ) (xs : List Transaction) → s < t → All (Later t) xs → All (Later s) xs
All-Later s t [] h a = tt
All-Later s t (x ∷ xs) h a = (omega (arith, a.0), All-Later s t xs h a.1)

-- `x` is earlier than its neighbour `y` and stays; `o` is the pass from `y` on.
Passed-on :
    (k : ℕ) (x y : Transaction) (r : List Transaction) (o : Bool × List Transaction)
    → x.timestamp < y.timestamp
    → Passed k y r o
    → Passed (suc k) x (y ∷ r) (o.0, x ∷ o.1)
Passed-on k x y r o lt p = record {
  later = λ t h a. p.later t (omega (arith, h)) a;
  rises = λ a b. (p.later x.timestamp lt a, p.rises b.0 b.1);
  same = λ e. ap (λ l. x ∷ l) (p.same e);
  ordered = λ e a b.
      let rest = p.ordered e b.0 b.1 in ((lt, All-Later x.timestamp y.timestamp r lt rest.0), rest);
  perm = Perm.cons x p.perm;
  times = λ t. omega (arith, p.times t);
  size = omega (arith, p.size);
}

-- `y` is earlier than `x` before it, and they change places; `o` is the pass from `x` on.
swapped_on :
    (k : ℕ) (x y : Transaction) (r : List Transaction) (o : Bool × List Transaction)
    → y.timestamp < x.timestamp
    → Passed k x r o
    → Passed (suc k) x (y ∷ r) (true, y ∷ o.1)
swapped_on k x y r o lt p = record {
  later = λ t h a. p.later t h a;
  rises = λ a b. (p.later y.timestamp lt b.0, p.rises a b.1);
  same = λ e. cc;
  ordered = λ e. cc;
  perm = Perm.trans (Perm.cons y p.perm) (Perm.swap x y r);
  times = λ t. omega (arith, p.times t);
  size = omega (arith, p.size);
}

-- A pass gives a list, or meets two transactions of the same time.
abbrev PassResult : ℕ → Transaction → List Transaction → Option (Bool × List Transaction) → Type 0
PassResult k x r none = ¬ IsDistinct (x ∷ r)
PassResult k x r (some o) = Passed k x r o

bubble_pass-PassResult :
    (k : ℕ) (x : Transaction) (r : List Transaction)
    → k ≤ length r
    → PassResult k x r (bubble_pass k (x ∷ r))
unfolding bubble_pass
bubble_pass-PassResult zero x r h = record {
  later = λ t a b. (a, b);
  rises = λ a b. (a, b);
  same = λ e. refl;
  ordered = λ e a b. (a, b);
  perm = Perm.refl (x ∷ r);
  times = λ t. refl;
  size = refl;
}
bubble_pass-PassResult (suc k) x [] h = absurd (omega arith)
bubble_pass-PassResult (suc k) x (y ∷ r) h =
    round (Bool-cases (x.timestamp == y.timestamp)) (Bool-cases (ltb y.timestamp x.timestamp))
      (bubble_pass-PassResult k x r (omega arith)) (bubble_pass-PassResult k y r (omega arith))
  where
    swapped :
        (o : Option (Bool × List Transaction))
        → y.timestamp < x.timestamp
        → PassResult k x r o
        → PassResult (suc k) x (y ∷ r) (mathlib.Core.Option.map (λ o. (true, y ∷ o.1)) o)
    swapped none lt p = λ d. p λ t. omega (arith, d t)
    swapped (some o) lt p = swapped_on k x y r o lt p

    passed :
        (o : Option (Bool × List Transaction))
        → x.timestamp < y.timestamp
        → PassResult k y r o
        → PassResult (suc k) x (y ∷ r) (mathlib.Core.Option.map (λ o. (o.0, x ∷ o.1)) o)
    passed none lt p = λ d. p λ t. omega (arith, d t)
    passed (some o) lt p = Passed-on k x y r o lt p

    round :
        ((x.timestamp == y.timestamp) ≡ true) ⊎ ((x.timestamp == y.timestamp) ≡ false)
        → (ltb y.timestamp x.timestamp ≡ true) ⊎ (ltb y.timestamp x.timestamp ≡ false)
        → PassResult k x r (bubble_pass k (x ∷ r))
        → PassResult k y r (bubble_pass k (y ∷ r))
        → PassResult (suc k) x (y ∷ r) (bubble_pass (suc k) (x ∷ y ∷ r))
    round (inl e) c p q = rw e λ d. absurd (ground (arith, d x.timestamp))
    round (inr ne) (inl lt) p q = rw (ne, lt) (swapped (bubble_pass k (x ∷ r)) (ground arith) p)
    round (inr ne) (inr ge) p q = rw (ne, ge) (passed (bubble_pass k (y ∷ r)) (ground arith) q)

-- What sorting gives: the exit is for two transactions of the same time.
abbrev pub Sorts : List Transaction → Option (List Transaction) → Type 0
Sorts xs none = ¬ IsDistinct xs
Sorts xs (some ys) = Rises ys × Perm ys xs

-- One round of the outer loop, with `r` comparisons.
bubble_round :
    (r : ℕ) (x : Transaction) (xs : List Transaction)
    → r ≤ length xs
    → LaterFrom x.timestamp r xs
    → RisesFrom r xs
    → ((ys : List Transaction) → r ≤ length ys → RisesFrom r ys → Sorts ys (bubble_rounds r ys))
    → Sorts (x ∷ xs) (bubble_rounds (suc r) (x ∷ xs))
unfolding bubble_rounds
bubble_round r x xs h a b later = go (bubble_pass r (x ∷ xs)) refl (bubble_pass-PassResult r x xs h)
  where
    from :
        (ys : List Transaction) (o : Option (List Transaction))
        → Perm ys (x ∷ xs)
        → ((t : ℕ) → at_time t ys ≡ at_time t (x ∷ xs))
        → Sorts ys o
        → Sorts (x ∷ xs) o
    from ys none p e s = λ d. s λ t. rw (e t) (d t)
    from ys (some zs) p e s = (s.0, Perm.trans s.1 p)

    go :
        (o : Option (Bool × List Transaction))
        → bubble_pass r (x ∷ xs) ≡ o
        → PassResult r x xs o
        → Sorts (x ∷ xs) (bubble_rounds (suc r) (x ∷ xs))
    go none e p = rw (e, bubble_rounds) p
    go (some (true, ys)) e p =
        rw (e, bubble_rounds)
          (from ys (bubble_rounds r ys) p.perm p.times
            (later ys (omega (arith, p.size)) (p.rises a b)))
    go (some (false, ys)) e p =
        rw (e, bubble_rounds) (subst Rises (sym (p.same refl)) (p.ordered refl a b), p.perm)

bubble_rounds-Sorts :
    (r : ℕ) (xs : List Transaction) → r ≤ length xs → RisesFrom r xs → Sorts xs (bubble_rounds r xs)
unfolding bubble_rounds
bubble_rounds-Sorts zero xs h a = (a, Perm.refl xs)
bubble_rounds-Sorts (suc r) [] h a = absurd (omega arith)
bubble_rounds-Sorts (suc r) (x ∷ xs) h a =
    bubble_round r x xs (omega arith) a.0 a.1 λ ys h' a'. bubble_rounds-Sorts r ys h' a'

unsorted : (t : ℕ) (xs : List Transaction) → LaterFrom t (length xs) xs
unsorted t [] = tt
unsorted t (x ∷ xs) = unsorted t xs

all_unsorted : (xs : List Transaction) → RisesFrom (length xs) xs
all_unsorted [] = tt
all_unsorted (x ∷ xs) = (unsorted x.timestamp xs, all_unsorted xs)

-- BubbleSortForwardList gives the transactions in the order of their timestamps, which rise, and loses
-- or doubles none; it exits only if two transactions have the same timestamp.
pub bubble_sort-Sorts : (xs : List Transaction) → Sorts xs (bubble_sort xs)
unfolding bubble_sort
bubble_sort-Sorts xs = bubble_rounds-Sorts (length xs) xs (omega arith) (all_unsorted xs)
