-- ===== src/Sched/Queues.antt =====
-- The invariant that ties threads and queues together: a thread stands once on the queue that its
-- kt_wchan names and on no other, and tq_size is the number of threads on a queue.
use csci.Prelude.{
  length-append, ◌∙◌, ap, inr, inl, ◌⊎◌, refl, arith, length, ◌==◌, some, none, [], ◌+◌, true,
  if◌then◌else◌, ◌++◌, ◌<◌, ◌≡◌, Option, ◌∷◌, List, ℕ,
}
use csci.Sched.{join, leave, on, has, Sched, pop_tail, erase}

unfoldable pub count : ℕ → List ℕ → ℕ
count t [] = 0
count t (x ∷ xs) = if x == t then count t xs + 1 else count t xs

-- What the invariant says of one thread and one queue.
abbrev pub Entry : Sched → ℕ → ℕ → Type 0
Entry s t q =
    (count t (s.tq_list q) ≡ (if on (s.thread t).kt_wchan q then 1 else 0))
    × (s.tq_size q ≡ length (s.tq_list q))

abbrev pub IsSound : Sched → Type 0
IsSound s = (t q : ℕ) → Entry s t q

pub has_of_count : (t : ℕ) (xs : List ℕ) → 0 < count t xs → has t xs ≡ true
unfolding count
has_of_count t [] h = absurd (omega arith)
has_of_count t (x ∷ xs) h = ground (arith, has_of_count t xs)

pub count-erase :
    (t u : ℕ) (xs : List ℕ)
    → has t xs ≡ true
    → count u (erase t xs) + (if t == u then 1 else 0) ≡ count u xs
unfolding count erase
count-erase t u [] h = cc
count-erase t u (x ∷ xs) h = ground (arith, count-erase t u xs)

pub length-erase : (t : ℕ) (xs : List ℕ) → has t xs ≡ true → length (erase t xs) + 1 ≡ length xs
unfolding erase
length-erase t [] h = cc
length-erase t (x ∷ xs) h = ground (arith, length-erase t xs)

-- The last element of a list and the others, if there is one.
abbrev pub Pops : List ℕ → Option (ℕ × List ℕ) → Type 0
Pops xs o =
    ((xs ≡ []) × (o ≡ none)) ⊎ ((t : ℕ) × (ys : List ℕ) × (xs ≡ ys ++ t ∷ []) × (o ≡ some (t, ys)))

pub pop_tail-Pops : (xs : List ℕ) → Pops xs (pop_tail xs)
unfolding pop_tail
pop_tail-Pops [] = inl (refl, refl)
pop_tail-Pops (x ∷ xs) = elim (pop_tail-Pops xs) [
  | inl (e, n) ↦ inr (x, [], rw e, rw (n, pop_tail))
  | inr (t, ys, e, n) ↦ inr (t, x ∷ ys, rw e, rw (n, pop_tail))
]

pub pop_tail-last : (t : ℕ) (ys : List ℕ) → pop_tail (ys ++ t ∷ []) ≡ some (t, ys)
unfolding pop_tail
pop_tail-last t [] = refl
pop_tail-last t (y ∷ ys) = rw (pop_tail-last t ys, pop_tail)

pub count-append : (t : ℕ) (xs ys : List ℕ) → count t (xs ++ ys) ≡ count t xs + count t ys
unfolding count
count-append t [] ys = omega arith
count-append t (x ∷ xs) ys = ground (arith, count-append t xs ys)

-- A thread that is on no queue joins one.
pub join-IsSound :
    (q thr : ℕ) (s : Sched) → (s.thread thr).kt_wchan ≡ none → IsSound s → IsSound (join q thr s)
unfolding count
join-IsSound q thr s e sound t x = ground (arith, sound t x, sound t q, sound thr q, sound thr x)

-- The thread at the tail of a queue leaves it.
pub leave_tail-IsSound :
    (q thr : ℕ) (xs : List ℕ) (s : Sched)
    → s.tq_list q ≡ xs ++ thr ∷ []
    → IsSound s
    → ((s.thread thr).kt_wchan ≡ some q) × IsSound (leave q thr xs s)
unfolding count
leave_tail-IsSound q thr xs s e sound =
    let len : length (s.tq_list q) ≡ length xs + 1 = ap length e ∙ length-append xs (thr ∷ []) in
    let split : (t : ℕ) → count t (s.tq_list q) ≡ count t xs + count t (thr ∷ []) =
      λ t. ap (count t) e ∙ count-append t xs (thr ∷ []) in
    let chan : (s.thread thr).kt_wchan ≡ some q = ground (arith, sound thr q, split thr) in
    (
      chan,
      λ t x.
          ground (arith, sound t x, sound thr x, sound t q, sound thr q, split t, split thr, len),
    )

-- A thread on a queue is taken off it.
pub leave-erase-IsSound :
    (q thr : ℕ) (s : Sched)
    → (s.thread thr).kt_wchan ≡ some q
    → IsSound s
    → (has thr (s.tq_list q) ≡ true) × IsSound (leave q thr (erase thr (s.tq_list q)) s)
leave-erase-IsSound q thr s e sound =
    let here : has thr (s.tq_list q) ≡ true =
      has_of_count thr (s.tq_list q) (ground (arith, sound thr q)) in
    (
      here,
      λ t x. ground (
        arith,
        sound t x,
        sound thr x,
        sound t q,
        sound thr q,
        count-erase thr t (s.tq_list q) here,
        length-erase thr (s.tq_list q) here,
      ),
    )
