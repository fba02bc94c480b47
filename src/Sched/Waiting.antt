-- ===== src/Sched/Waiting.antt =====
-- sched_sleep_on: the current thread waits, and the next one runs.
use csci.Prelude.Outcome.{done}
use csci.Sched.{kt_runq, KtState, set_thread, join, Sched, ktqueue_enqueue, sched_sleep_on}
use csci.Prelude.{refl, arith, [], ◌∷◌, ◌++◌, ◌≢◌, none, ◌≡◌, List, ℕ}
use csci.Sched.Switch.{switch-next, switched}
use csci.Sched.Wakeup.{set_thread-IsSound}
use csci.Sched.Queues.{IsSound, join-IsSound}

-- The current thread in the state KT_SLEEP at the head of `q`.
abbrev pub waiting : ℕ → Sched → Sched
waiting q s =
    join q s.curthr
      (set_thread s.curthr (record (s.thread s.curthr) { kt_state = KtState.kt_sleep }) s)

-- Where the queues are sound and a thread is on the run queue, a current thread that is on no
-- queue goes to sleep at the head of `q`, which is not the run queue, and the thread that has
-- waited longest on the run queue goes on. The queues stay sound.
pub sleep-next :
    (handlers : List (Sched → Sched)) (q thr : ℕ) (xs : List ℕ) (s : Sched)
    → IsSound s
    → (s.thread s.curthr).kt_wchan ≡ none
    → q ≢ kt_runq
    → s.tq_list kt_runq ≡ xs ++ thr ∷ []
    → (sched_sleep_on handlers q s ≡ done (switched thr xs (waiting q s)))
      × IsSound (switched thr xs (waiting q s))
unfolding sched_sleep_on ktqueue_enqueue
sleep-next handlers q thr xs s sound free other e =
    let s0 = set_thread s.curthr (record (s.thread s.curthr) { kt_state = KtState.kt_sleep }) s in
    let off : (s0.thread s.curthr).kt_wchan ≡ none = ground (arith, free) in
    let runs : (waiting q s).tq_list kt_runq ≡ xs ++ thr ∷ [] = ground (arith, other, e) in
    let (next, safe) =
      switch-next handlers thr xs (waiting q s)
        (join-IsSound q s.curthr s0 off (set_thread-IsSound s.curthr _ s refl sound)) runs in
    (rw off next, safe)
