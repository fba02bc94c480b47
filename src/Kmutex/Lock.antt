-- ===== src/Kmutex/Lock.antt =====
-- kmutex_lock: a free mutex is taken, a thread that finds it held sleeps on it.
use csci.Prelude.Outcome.{done}
use csci.Sched.Queues.{leave_tail-IsSound, IsSound}
use csci.Sched.{KtState, kt_runq, Sched}
use csci.Prelude.{
  ◌+◌, refl, sym, arith, false, ◌==◌, ap, ◌∙◌, Option, [], ◌∷◌, ◌++◌, ◌≢◌, some, none, ◌≡◌, ℕ, List,
}
use csci.Kmutex.{kmutex_lock, Kmutex}
use csci.Sched.Waiting.{sleep-next, waiting}
use csci.Sched.Switch.{switched}

-- The current thread sleeps at the head of the queue `q`, in an uncancellable sleep with its level kept, and `thr`, which
-- stood on the run queue behind `xs`, goes on with its own. No other thread and no other queue changes.
pub record Sleeps (q thr : ℕ) (xs : List ℕ) (s s' : Sched) : Type 0 where
  pub head : s'.tq_list q ≡ s.curthr ∷ s.tq_list q
  pub size : s'.tq_size q ≡ s.tq_size q + 1
  pub run_queue : s'.tq_list kt_runq ≡ xs
  pub other_queues : (x : ℕ) → x ≢ q → x ≢ kt_runq → s'.tq_list x ≡ s.tq_list x
  pub state : (s'.thread s.curthr).kt_state ≡ KtState.kt_sleep
  pub channel : (s'.thread s.curthr).kt_wchan ≡ some q
  pub level : (s'.thread s.curthr).kt_ipl ≡ s.ipl
  pub left : (s'.thread thr).kt_wchan ≡ none
  pub others : (t : ℕ) → t ≢ s.curthr → t ≢ thr → s'.thread t ≡ s.thread t
  pub runs : s'.curthr ≡ thr
  pub process : s'.curproc ≡ (s.thread thr).kt_proc
  pub resumed : s'.ipl ≡ (s.thread thr).kt_ipl

waiting-Sleeps :
    (q thr : ℕ) (xs : List ℕ) (s : Sched)
    → q ≢ kt_runq
    → thr ≢ s.curthr
    → Sleeps q thr xs s (switched thr xs (waiting q s))
waiting-Sleeps q thr xs s other not_me = record {
  head = ground (arith, other);
  size = ground (arith, other);
  run_queue = ground arith;
  other_queues = λ x a b. ground (arith, a, b);
  state = ground (arith, not_me);
  channel = ground (arith, not_me);
  level = ground (arith, not_me);
  left = ground arith;
  others = λ t a b. ground (arith, a, b);
  runs = refl;
  process = ground (arith, not_me);
  resumed = ground (arith, not_me);
}

-- What kmutex_lock does when `thr`, behind `xs`, is the next thread to run.
pub data Locks (mtx : Kmutex) (thr : ℕ) (xs : List ℕ) (s : Sched) : Kmutex → Sched → Type 0 where
  takes : mtx.km_holder ≡ none → Locks mtx thr xs s (record mtx { km_holder = some s.curthr }) s
  sleeps :
      (t : ℕ)
      → mtx.km_holder ≡ some t
      → t ≢ s.curthr
      → (s' : Sched) → Sleeps mtx.km_waitq thr xs s s'
      → Locks mtx thr xs s mtx s'

-- Where the queues are sound, a thread is on the run queue and the mutex's queue is another one, a
-- thread that does not hold the mutex and is on no queue takes it at once if it is free. If
-- another thread holds it, that thread stays the holder, the caller sleeps at the head of the
-- mutex's queue, in front of those that wait there already, and the thread at the tail of the run queue, which has waited
-- longest there, goes on. No other thread and no other queue changes, and the queues stay sound.
pub lock-takes_or_sleeps :
    (handlers : List (Sched → Sched)) (mtx : Kmutex) (thr : ℕ) (xs : List ℕ) (s : Sched)
    → IsSound s
    → (s.thread s.curthr).kt_wchan ≡ none
    → mtx.km_waitq ≢ kt_runq
    → mtx.km_holder ≢ some s.curthr
    → s.tq_list kt_runq ≡ xs ++ thr ∷ []
    → (mtx' : Kmutex) × (s' : Sched) × (kmutex_lock handlers mtx s ≡ done (mtx', s'))
      × Locks mtx thr xs s mtx' s'
      × IsSound s'
unfolding kmutex_lock
lock-takes_or_sleeps handlers mtx thr xs s sound free other not_mine e = go mtx.km_holder refl
  where
    go :
        (h : Option ℕ)
        → mtx.km_holder ≡ h
        → (mtx' : Kmutex) × (s' : Sched) × (kmutex_lock handlers mtx s ≡ done (mtx', s'))
          × Locks mtx thr xs s mtx' s'
          × IsSound s'
    go none h = (
      record mtx { km_holder = some s.curthr },
      s,
      rw (h, kmutex_lock) refl,
      Locks.takes h,
      sound,
    )
    go (some t) h =
        let apart : t ≢ s.curthr = λ same. not_mine (h ∙ ap some same) in
        let differ : (t == s.curthr) ≡ false = ground (arith, apart) in
        let waits : (s.thread thr).kt_wchan ≡ some kt_runq =
          (leave_tail-IsSound kt_runq thr xs s e sound).0 in
        let not_me : thr ≢ s.curthr = λ same.
          let both : some kt_runq ≡ none =
            sym waits ∙ ap (λ x. (s.thread x).kt_wchan) same ∙ free in
          absurd (ground (arith, both)) in
        let (next, safe) = sleep-next handlers mtx.km_waitq thr xs s sound free other e in
        (
          mtx,
          switched thr xs (waiting mtx.km_waitq s),
          rw (h, kmutex_lock) (rw differ (rw next (rw (sym h) refl))),
          Locks.sleeps t h apart (switched thr xs (waiting mtx.km_waitq s))
              (waiting-Sleeps mtx.km_waitq thr xs s other not_me),
          safe,
        )
