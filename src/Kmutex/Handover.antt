-- ===== src/Kmutex/Handover.antt =====
-- kmutex_unlock: the mutex goes to the thread that has waited longest.
use csci.Prelude.Outcome.{done}
use csci.Sched.Broadcast.{has-append, Asleep}
use csci.Prelude.{
  is_nil, refl, arith, ◌∙◌, ap, false, ◌==◌, true, inr, ◌∷◌, inl, ◌++◌, List, ℕ, some, none, [],
  ◌≡◌,
}
use csci.Sched.Queues.{leave_tail-IsSound, pop_tail-Pops, IsSound}
use csci.Sched.{on, has, Sched, sched_queue_empty}
use csci.Kmutex.{Kmutex, kmutex_unlock}
use csci.Sched.Wakeup.{wakeup-done, is_nil-tail, woken-IsSound, woken}

-- What kmutex_unlock returns: a free mutex, or one that a thread of its queue has been handed.
pub data Handed (mtx : Kmutex) (s : Sched) : Kmutex → Sched → Type 0 where
  freed : s.tq_list mtx.km_waitq ≡ [] → Handed mtx s (record mtx { km_holder = none }) s
  handed :
      (thr : ℕ) (xs : List ℕ)
      → s.tq_list mtx.km_waitq ≡ xs ++ thr ∷ []
      → Handed mtx s (record mtx { km_holder = some thr }) (woken mtx.km_waitq thr xs s)

-- Where the queues are sound, the threads on the mutex's queue sleep and the caller holds the
-- mutex and is on no queue, kmutex_unlock returns with its assertions met. Without waiting threads
-- the mutex is free and the queues are as before. Otherwise the mutex goes to the thread that has
-- waited longest, which leaves the mutex's queue and is runnable. The queues stay sound.
pub unlock-hands_over :
    (mtx : Kmutex) (s : Sched)
    → IsSound s
    → Asleep mtx.km_waitq s
    → mtx.km_holder ≡ some s.curthr
    → (s.thread s.curthr).kt_wchan ≡ none
    → (mtx' : Kmutex) × (s' : Sched) × (kmutex_unlock mtx s ≡ done (mtx', s'))
      × Handed mtx s mtx' s'
      × IsSound s'
unfolding kmutex_unlock sched_queue_empty
unlock-hands_over mtx s sound a held free =
    let holds : on mtx.km_holder s.curthr ≡ true = rw held (ground arith) in
    elim (pop_tail-Pops (s.tq_list mtx.km_waitq)) [
      | inl (e, n) ↦ (
        record mtx { km_holder = none },
        s,
        rw (holds, kmutex_unlock) (rw (ap is_nil e, kmutex_unlock) refl),
        Handed.freed e,
        sound,
      )
      | inr (thr, xs, e, n) ↦
          let here : has thr (s.tq_list mtx.km_waitq) ≡ true =
            ap (has thr) e ∙ has-append thr xs (thr ∷ []) ∙ ground arith in
          let awake = wakeup-done mtx.km_waitq thr xs s e (a thr here) in
          let other : (thr == s.curthr) ≡ false =
            ground (arith, free, (leave_tail-IsSound mtx.km_waitq thr xs s e sound).0) in
          (
            record mtx { km_holder = some thr },
            woken mtx.km_waitq thr xs s,
            rw (holds, kmutex_unlock)
                (rw (ap is_nil e ∙ is_nil-tail xs thr, kmutex_unlock)
                  (rw (awake, kmutex_unlock) (rw other refl))),
            Handed.handed thr xs e,
            woken-IsSound mtx.km_waitq thr xs s e sound,
          )
    ]
