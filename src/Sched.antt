-- ===== src/Sched.antt =====
-- Homework/Kernel/proc/sched.c and Homework/Kernel/proc/sched_helper.c: thread queues, sleep,
-- wakeup, cancellation and the switch between threads. Threads and queues are named by numbers; a
-- queue lists its threads from tq_list's head to its tail.
use csci.Prelude.Outcome.{kassert, deref, out_of_fuel, ◌>>=◌, ◌>>◌, done, Outcome}
use csci.Prelude.{
  is_none, is_nil, not, zero, suc, ◌+◌, ◌||◌, length, some, ◌==◌, ◌-◌, [], true, false, ◌∷◌,
  if◌then◌else◌, none, Bool, ℕ, List, Option,
}
pub mod Broadcast
pub mod Cancel
pub mod Queues
pub mod Waiting
pub mod Switch
pub mod Wakeup

pub data KtState : Type 0 where
  kt_no_state kt_run kt_sleep kt_sleep_cancellable kt_exited : KtState

-- `kt_ipl` is the local variable oldIPL of the call of sched_switch in which the thread is suspended.
pub record Kthread : Type 0 where
  pub kt_state : KtState
  pub kt_wchan : Option ℕ
  pub kt_cancelled : Bool
  pub kt_proc : ℕ
  pub kt_ipl : ℕ

-- The scheduler's globals and the threads and queues that they reach.
pub record Sched : Type 0 where
  pub thread : ℕ → Kthread
  pub tq_list : ℕ → List ℕ
  pub tq_size : ℕ → ℕ
  pub curthr : ℕ
  pub curproc : ℕ
  pub ipl : ℕ

abbrev pub kt_runq : ℕ
kt_runq = 0

abbrev pub ipl_low : ℕ
ipl_low = 0

abbrev pub ipl_high : ℕ
ipl_high = 1

abbrev pub update {ℓ} : {A : Type ℓ} → (ℕ → A) → ℕ → A → ℕ → A
update f k a x = if x == k then a else f x

abbrev pub set_thread : ℕ → Kthread → Sched → Sched
set_thread t th s = record s { thread = update s.thread t th }

-- A thread joins the queue `q` at its head.
abbrev pub join : ℕ → ℕ → Sched → Sched
join q thr s = record s {
  tq_list = update s.tq_list q (thr ∷ s.tq_list q);
  thread = update s.thread thr (record (s.thread thr) { kt_wchan = some q });
  tq_size = update s.tq_size q (s.tq_size q + 1);
}

unfoldable pub ktqueue_enqueue : ℕ → ℕ → Sched → Outcome Sched
ktqueue_enqueue q thr s = do kassert (is_none (s.thread thr).kt_wchan); done (join q thr s)

-- The element at l_prev of the list, and the list without it.
unfoldable pub pop_tail {ℓ} : {A : Type ℓ} → List A → Option (A × List A)
pop_tail [] = none
pop_tail (x ∷ xs) = elim (pop_tail xs) [ none ↦ some (x, []) | some (t, ys) ↦ some (t, x ∷ ys) ]

-- A thread leaves the queue `q`, whose list is then `xs`.
abbrev pub leave : ℕ → ℕ → List ℕ → Sched → Sched
leave q thr xs s = record s {
  tq_list = update s.tq_list q xs;
  thread = update s.thread thr (record (s.thread thr) { kt_wchan = none });
  tq_size = update s.tq_size q (s.tq_size q - 1);
}

unfoldable pub ktqueue_dequeue : ℕ → Sched → Option ℕ × Sched
unfolding pop_tail
ktqueue_dequeue q s = elim (pop_tail (s.tq_list q)) [
  | none ↦ (none, s)
  | some (thr, xs) ↦ (some thr, leave q thr xs s)
]

unfoldable pub erase : ℕ → List ℕ → List ℕ
erase t [] = []
erase t (x ∷ xs) = if x == t then xs else x ∷ erase t xs

abbrev pub has : ℕ → List ℕ → Bool
has t [] = false
has t (x ∷ xs) = x == t || has t xs

-- The callers pass the queue that the thread's link is on.
unfoldable pub ktqueue_remove : ℕ → ℕ → Sched → Outcome Sched
unfolding erase
ktqueue_remove q thr s = do
  kassert (has thr (s.tq_list q))
  done (leave q thr (erase thr (s.tq_list q)) s)

unfoldable pub sched_queue_init : ℕ → Sched → Sched
sched_queue_init q s = record s { tq_list = update s.tq_list q []; tq_size = update s.tq_size q 0 }

unfoldable pub sched_queue_empty : ℕ → Sched → Bool
sched_queue_empty q s = is_nil (s.tq_list q)

abbrev pub on : Option ℕ → ℕ → Bool
on none q = false
on (some x) q = x == q

unfoldable pub sched_make_runnable : ℕ → Sched → Outcome Sched
unfolding ktqueue_enqueue
sched_make_runnable thr s = do
  kassert (not (on (s.thread thr).kt_wchan kt_runq))
  s' ← ktqueue_enqueue kt_runq thr (record s { ipl = ipl_high })
  done (record s' { ipl = s.ipl })

unfoldable pub sched_cancel : ℕ → Sched → Outcome Sched
unfolding sched_make_runnable ktqueue_remove
sched_cancel kthr s =
    let s' = set_thread kthr (record (s.thread kthr) { kt_cancelled = true }) s in
    elim (s.thread kthr).kt_state [
      | KtState.kt_sleep_cancellable ↦ do
        q ← deref (s.thread kthr).kt_wchan
        s'' ← ktqueue_remove q kthr s'
        sched_make_runnable kthr s''
      | _ ↦ done s'
    ]

abbrev pub is_asleep : KtState → Bool
is_asleep KtState.kt_sleep = true
is_asleep KtState.kt_sleep_cancellable = true
is_asleep _ = false

unfoldable pub sched_wakeup_on : ℕ → Sched → Outcome (ℕ × Sched)
unfolding ktqueue_dequeue sched_make_runnable sched_queue_empty
sched_wakeup_on q s = do
  kassert (not (sched_queue_empty q s))
  let out = ktqueue_dequeue q s
  thr ← deref out.0
  let s' = out.1
  kassert (is_asleep (s'.thread thr).kt_state)
  s'' ←
      sched_make_runnable thr
        (set_thread thr (record (s'.thread thr) { kt_state = KtState.kt_run }) s')
  done (thr, s'')

-- One round for each thread on the queue, and the test that ends the loop.
unfoldable pub broadcast_loop : ℕ → ℕ → Sched → Outcome Sched
unfolding sched_wakeup_on sched_queue_empty
broadcast_loop zero q s = out_of_fuel
broadcast_loop (suc f) q s = elim (sched_queue_empty q s) [
  | true ↦ done s
  | false ↦ do (thr, s') ← sched_wakeup_on q s; broadcast_loop f q s'
]

unfoldable pub sched_broadcast_on : ℕ → Sched → Outcome Sched
unfolding broadcast_loop
sched_broadcast_on q s = broadcast_loop (length (s.tq_list q) + 1) q s

-- The wait of sched_switch for a runnable thread. `handlers` are the interrupts that come, one for each
-- intr_wait; without one the wait does not end.
unfoldable pub wait_runnable : List (Sched → Sched) → Sched → Outcome Sched
unfolding sched_queue_empty
wait_runnable [] s = if sched_queue_empty kt_runq s then out_of_fuel else done s
wait_runnable (h ∷ hs) s = elim (sched_queue_empty kt_runq s) [
  | true ↦ wait_runnable hs (record (h (record s { ipl = ipl_low })) { ipl = ipl_high })
  | false ↦ done s
]

-- Up to the point where the next thread runs: it goes on behind its own context_switch, and sets the
-- level that it saved.
unfoldable pub sched_switch : List (Sched → Sched) → Sched → Outcome Sched
unfolding wait_runnable ktqueue_dequeue
sched_switch handlers s = do
  let old = s.curthr
  let saved = set_thread old (record (s.thread old) { kt_ipl = s.ipl }) s
  s1 ← wait_runnable handlers (record saved { ipl = ipl_high })
  let out = ktqueue_dequeue kt_runq s1
  next ← deref out.0
  let s2 = out.1
  done (record s2 {
    curthr = next;
    curproc = (s2.thread next).kt_proc;
    ipl = (s2.thread next).kt_ipl;
  })

-- The current thread goes to sleep on `q` in the given state, up to the call of sched_switch.
abbrev pub go_to_sleep : KtState → ℕ → Sched → Outcome Sched
go_to_sleep state q s =
    ktqueue_enqueue q s.curthr
      (set_thread s.curthr (record (s.thread s.curthr) { kt_state = state }) s)

unfoldable pub sched_sleep_on : List (Sched → Sched) → ℕ → Sched → Outcome Sched
unfolding ktqueue_enqueue sched_switch
sched_sleep_on handlers q s = do s' ← go_to_sleep KtState.kt_sleep q s; sched_switch handlers s'

-- What a call of sched_cancellable_sleep_on does before it may return: it returns -EINTR at once, or the
-- thread sleeps.
pub data Sleep : Type 0 where
  interrupted : Sleep
  asleep : Sched → Sleep

unfoldable pub sched_cancellable_sleep_on : List (Sched → Sched) → ℕ → Sched → Outcome Sleep
unfolding ktqueue_enqueue sched_switch
sched_cancellable_sleep_on handlers q s = elim (s.thread s.curthr).kt_cancelled [
  | true ↦ done interrupted
  | false ↦ do
    s' ← go_to_sleep KtState.kt_sleep_cancellable q s
    s'' ← sched_switch handlers s'
    done (asleep s'')
]

-- Its return value when the thread runs again: whether it is -EINTR.
unfoldable pub cancellable_wakes : Sched → Bool
cancellable_wakes s = (s.thread s.curthr).kt_cancelled
