-- ===== src/Sched/Wakeup.antt =====
-- sched_wakeup_on and sched_make_runnable: who becomes runnable, and in which order.
use csci.Sched.Queues.{pop_tail-last, leave_tail-IsSound, join-IsSound, IsSound}
use csci.Sched.{
  pop_tail, is_asleep, KtState, kt_runq, set_thread, join, leave, Sched, sched_queue_empty,
  ktqueue_enqueue, Kthread, ktqueue_dequeue, sched_make_runnable, sched_wakeup_on,
}
use csci.Prelude.{
  is_nil, ◌∙◌, false, ap, some, refl, true, arith, [], ◌∷◌, ◌++◌, none, ◌≡◌, List, ℕ,
}
use csci.Prelude.Outcome.{done}

-- The thread `thr` at the tail of `q`, awake and runnable; `xs` are the others.
abbrev pub woken : ℕ → ℕ → List ℕ → Sched → Sched
woken q thr xs s =
    let s' = leave q thr xs s in
    join kt_runq thr (set_thread thr (record (s'.thread thr) { kt_state = KtState.kt_run }) s')

-- A change of a thread that keeps its kt_wchan keeps the queues sound.
pub set_thread-IsSound :
    (t : ℕ) (th : Kthread) (s : Sched)
    → th.kt_wchan ≡ (s.thread t).kt_wchan
    → IsSound s
    → IsSound (set_thread t th s)
set_thread-IsSound t th s e sound u q = ground (arith, sound u q)

pub make_runnable-done :
    (thr : ℕ) (s : Sched)
    → (s.thread thr).kt_wchan ≡ none
    → sched_make_runnable thr s ≡ done (join kt_runq thr s)
unfolding sched_make_runnable ktqueue_enqueue
make_runnable-done thr s e = rw e

pub is_nil-tail : (xs : List ℕ) (t : ℕ) → is_nil (xs ++ t ∷ []) ≡ false
is_nil-tail [] t = refl
is_nil-tail (x ∷ xs) t = refl

-- The queues are first in, first out: the head is the thread that joined last.
pub dequeue-done :
    (q thr : ℕ) (xs : List ℕ) (s : Sched)
    → s.tq_list q ≡ xs ++ thr ∷ []
    → ktqueue_dequeue q s ≡ (some thr, leave q thr xs s)
unfolding ktqueue_dequeue
dequeue-done q thr xs s e = rw (ap pop_tail e ∙ pop_tail-last thr xs, ktqueue_dequeue)

-- Where the thread at the tail of a queue, which has waited longest, sleeps, sched_wakeup_on wakes
-- it: it leaves the queue, is in the state KT_RUN, and joins the run queue.
pub wakeup-done :
    (q thr : ℕ) (xs : List ℕ) (s : Sched)
    → s.tq_list q ≡ xs ++ thr ∷ []
    → is_asleep (s.thread thr).kt_state ≡ true
    → sched_wakeup_on q s ≡ done (thr, woken q thr xs s)
unfolding sched_wakeup_on sched_queue_empty
wakeup-done q thr xs s e z =
    let s' = leave q thr xs s in
    let awake = set_thread thr (record (s'.thread thr) { kt_state = KtState.kt_run }) s' in
    let full : is_nil (s.tq_list q) ≡ false = ap is_nil e ∙ is_nil-tail xs thr in
    let runs : sched_make_runnable thr awake ≡ done (join kt_runq thr awake) =
      make_runnable-done thr awake (ground arith) in
    let asleep : is_asleep (s'.thread thr).kt_state ≡ true = ground arith in
    rw full (rw (dequeue-done q thr xs s e) (rw asleep (rw runs refl)))

pub woken-IsSound :
    (q thr : ℕ) (xs : List ℕ) (s : Sched)
    → s.tq_list q ≡ xs ++ thr ∷ []
    → IsSound s
    → IsSound (woken q thr xs s)
woken-IsSound q thr xs s e sound =
    let s' = leave q thr xs s in
    let awake = set_thread thr (record (s'.thread thr) { kt_state = KtState.kt_run }) s' in
    join-IsSound kt_runq thr awake (ground arith) (
      set_thread-IsSound thr (record (s'.thread thr) { kt_state = KtState.kt_run }) s' refl
        (leave_tail-IsSound q thr xs s e sound).1)
