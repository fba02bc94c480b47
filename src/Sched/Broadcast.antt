-- ===== src/Sched/Broadcast.antt =====
-- sched_broadcast_on: every thread of the queue becomes runnable, in the order in which they waited.
use csci.Sched.Wakeup.{wakeup-done, is_nil-tail, woken-IsSound, woken}
use csci.Sched.{
  sched_broadcast_on, KtState, is_asleep, sched_queue_empty, broadcast_loop, has, kt_runq, Sched,
}
use csci.Prelude.{
  is_nil, length-append, ◌+◌, zero, inr, ◌∙◌, ap, inl, Bool-cases, false, suc, refl, ◌==◌, length,
  arith, [], ◌<◌, ◌∷◌, if◌then◌else◌, true, ◌||◌, ◌++◌, ◌≡◌, ◌≢◌, List, ℕ,
}
use mathlib.Core.List.{append_assoc}
use csci.Prelude.Outcome.{done}
use csci.Sched.Queues.{count-append, IsSound, count, pop_tail-Pops}

abbrev pub Asleep : ℕ → Sched → Type 0
Asleep q s = (t : ℕ) → has t (s.tq_list q) ≡ true → is_asleep (s.thread t).kt_state ≡ true

-- The state after the broadcast. The head of a queue is the thread that leaves it last.
pub record Released (q : ℕ) (s s' : Sched) : Type 0 where
  pub sound : IsSound s'
  pub lists :
      (x : ℕ)
      → s'.tq_list x ≡ (
          if x == kt_runq
          then s.tq_list q ++ s.tq_list kt_runq
          else if x == q
          then []
          else s.tq_list x)
  pub running : (t : ℕ) → has t (s.tq_list q) ≡ true → (s'.thread t).kt_state ≡ KtState.kt_run
  pub others : (t : ℕ) → has t (s.tq_list q) ≡ false → s'.thread t ≡ s.thread t

pub has-append : (t : ℕ) (xs ys : List ℕ) → has t (xs ++ ys) ≡ (has t xs || has t ys)
has-append t [] ys = refl
has-append t (x ∷ xs) ys = ground (arith, has-append t xs ys)

count_of_has : (t : ℕ) (xs : List ℕ) → has t xs ≡ true → 0 < count t xs
unfolding count
count_of_has t [] h = cc
count_of_has t (x ∷ xs) h = ground (arith, count_of_has t xs)

module _ (q : ℕ) (other : q ≢ kt_runq) where
  module _ (s : Sched) (sound : IsSound s) (thr : ℕ) (xs : List ℕ)
      (e : s.tq_list q ≡ xs ++ thr ∷ []) where
    -- A thread stands once on the queue.
    once : has thr xs ≡ false
    unfolding count
    once = elim (Bool-cases (has thr xs)) [
      | inr no_more ↦ no_more
      | inl more ↦ absurd (
          ground (
            arith,
            sound thr q,
            count_of_has thr xs more,
            ap (count thr) e ∙ count-append thr xs (thr ∷ []),
          ))
    ]

    still-Asleep : Asleep q s → Asleep q (woken q thr xs s)
    still-Asleep a t h = ground (arith, a t, ap (has t) e ∙ has-append t xs (thr ∷ []), once)

    Released-woken : {s' : Sched} → Released q (woken q thr xs s) s' → Released q s s'
    Released-woken {s'} r = record {
      sound = r.sound;
      lists = λ x. ground (arith, r.lists x, append_assoc xs (thr ∷ []) (s.tq_list kt_runq));
      running = λ t h.
          ground (arith, r.running t, r.others t, once, ap (has t) e ∙ has-append t xs (thr ∷ []));
      others = λ t h. ground (arith, r.others t, ap (has t) e ∙ has-append t xs (thr ∷ []));
    }

  broadcast_loop-done :
      (f : ℕ) (s : Sched)
      → IsSound s
      → Asleep q s
      → length (s.tq_list q) < f
      → (s' : Sched) × (broadcast_loop f q s ≡ done s') × Released q s s'
  unfolding broadcast_loop sched_queue_empty
  broadcast_loop-done zero s sound a h = absurd (omega arith)
  broadcast_loop-done (suc f) s sound a h = elim (pop_tail-Pops (s.tq_list q)) [
    | inl (e, n) ↦ (
      s,
      rw (ap is_nil e, broadcast_loop),
      record {
        sound = sound;
        lists = λ x. ground arith;
        running = λ t i. ground arith;
        others = λ t i. refl;
      },
    )
    | inr (thr, xs, e, n) ↦
        let here : has thr (s.tq_list q) ≡ true =
          ap (has thr) e ∙ has-append thr xs (thr ∷ []) ∙ ground arith in
        let len : length (s.tq_list q) ≡ length xs + 1 =
          ap length e ∙ length-append xs (thr ∷ []) in
        let s1 = woken q thr xs s in
        let left : s1.tq_list q ≡ xs = ground arith in
        let (s', runs, r) =
          broadcast_loop-done f s1 (woken-IsSound q thr xs s e sound)
            (still-Asleep s sound thr xs e a) (rw left (omega arith)) in
        (
          s',
          rw (ap is_nil e ∙ is_nil-tail xs thr, broadcast_loop)
              (rw (wakeup-done q thr xs s e (a thr here)) runs),
          Released-woken s sound thr xs e r,
        )
  ]

  -- Where the queues are sound and every thread on a queue other than the run queue sleeps, a
  -- broadcast on it ends. The queue is then empty; its threads are in the state KT_RUN at the head
  -- of the run queue, in the order in which they stood, so that the one that has waited longest is
  -- the first of them to run; all other threads and queues are as before. The queues stay sound.
  pub broadcast-Released :
      (s : Sched)
      → IsSound s
      → Asleep q s
      → (s' : Sched) × (sched_broadcast_on q s ≡ done s') × Released q s s'
  unfolding sched_broadcast_on
  broadcast-Released s sound a =
      broadcast_loop-done (length (s.tq_list q) + 1) s sound a (omega arith)
