-- ===== src/Kmutex.antt =====
-- Homework/Kernel/proc/kmutex.c: a mutex over the scheduler of Sched.
pub mod Handover
pub mod Lock
use csci.Prelude.{false, true, [], some, if◌then◌else◌, none, Bool, ℕ, not, List, Option}
use csci.Prelude.Outcome.{Outcome, done, ◌>>=◌, ◌>>◌, kassert}
use csci.Sched.{
  sched_queue_init, Sleep, on, sched_queue_empty, Sched, sched_wakeup_on, cancellable_wakes,
  sched_cancellable_sleep_on, sched_sleep_on,
}

-- `km_waitq` names the queue of the mutex.
pub record Kmutex : Type 0 where
  pub km_holder : Option ℕ
  pub km_waitq : ℕ

unfoldable pub kmutex_init : Kmutex → Sched → Kmutex × Sched
unfolding sched_queue_init
kmutex_init mtx s = (record mtx { km_holder = none }, sched_queue_init mtx.km_waitq s)

-- The caller has the mutex, or sleeps on its queue and another thread runs.
unfoldable pub kmutex_lock : List (Sched → Sched) → Kmutex → Sched → Outcome (Kmutex × Sched)
unfolding sched_sleep_on
kmutex_lock handlers mtx s = do
  kassert (not (on mtx.km_holder s.curthr))
  elim mtx.km_holder [
    | none ↦ done (record mtx { km_holder = some s.curthr }, s)
    | some t ↦ do s' ← sched_sleep_on handlers mtx.km_waitq s; done (mtx, s')
  ]

unfoldable pub kmutex_unlock : Kmutex → Sched → Outcome (Kmutex × Sched)
unfolding sched_wakeup_on sched_queue_empty
kmutex_unlock mtx s = do
  kassert (on mtx.km_holder s.curthr)
  (mtx', s') ← elim (sched_queue_empty mtx.km_waitq s) [
    | true ↦ done (record mtx { km_holder = none }, s)
    | false ↦ do
      (next, s1) ← sched_wakeup_on mtx.km_waitq s
      done (record mtx { km_holder = some next }, s1)
  ]
  kassert (not (on mtx'.km_holder s'.curthr))
  done (mtx', s')

-- What a call of kmutex_lock_cancellable does until it returns or sleeps.
pub data LockStep : Type 0 where
  returns_eintr : LockStep
  returns_ok : Kmutex → LockStep
  waits : Kmutex → Sched → LockStep

unfoldable pub kmutex_lock_cancellable : List (Sched → Sched) → Kmutex → Sched → Outcome LockStep
unfolding sched_cancellable_sleep_on
kmutex_lock_cancellable handlers mtx s = do
  kassert (not (on mtx.km_holder s.curthr))
  if (s.thread s.curthr).kt_cancelled then done returns_eintr else elim mtx.km_holder [
    | none ↦ done (returns_ok (record mtx { km_holder = some s.curthr }))
    | some t ↦ do
      r ← sched_cancellable_sleep_on handlers mtx.km_waitq s
      elim r [ Sleep.interrupted ↦ done returns_eintr | Sleep.asleep s' ↦ done (waits mtx s') ]
  ]

-- What the call does when its thread runs again: it returns whether the result is -EINTR, after it has
-- given up a mutex that it was handed.
unfoldable pub kmutex_lock_resumed : Kmutex → Sched → Outcome (Bool × Kmutex × Sched)
unfolding kmutex_unlock cancellable_wakes
kmutex_lock_resumed mtx s =
    if cancellable_wakes s
    then (if on mtx.km_holder s.curthr
        then (kmutex_unlock mtx s >>= λ r. done (true, r.0, r.1))
        else done (true, mtx, s))
    else done (false, mtx, s)
