-- ===== src/Tests/Threads.antt =====
-- Three threads and the mutex on queue 5: thread 1 runs and holds it, 3 waited before 2.
use csci.Kmutex.Lock.{lock-takes_or_sleeps, Locks}
use csci.Kmutex.Handover.{unlock-hands_over, Handed}
use csci.Prelude.Outcome.{done}
use csci.Kmutex.{kmutex_unlock, kmutex_lock, Kmutex}
use csci.Sched.Cancel.{cancel-wakes, WasCancelled}
use csci.Sched.Queues.{IsSound, count}
use csci.Sched.{KtState, sched_broadcast_on, Kthread, Sched}
use csci.Prelude.{false, none, ◌∷◌, ◌==◌, refl, [], arith, some, ◌≡◌, if◌then◌else◌, ℕ}
use csci.Sched.Broadcast.{broadcast-Released, Asleep, Released}

abbrev threads : ℕ → Kthread
threads t = record {
  kt_state = if t == 1 then KtState.kt_run else KtState.kt_sleep_cancellable;
  kt_wchan = if t == 2 then some 5 else if t == 3 then some 5 else if t == 4 then some 0 else none;
  kt_cancelled = false;
  kt_proc = 0;
  kt_ipl = 0;
}

abbrev waits : Sched
waits = record {
  thread = threads;
  tq_list = λ q. if q == 5 then 2 ∷ 3 ∷ [] else if q == 0 then 4 ∷ [] else [];
  tq_size = λ q. if q == 5 then 2 else if q == 0 then 1 else 0;
  curthr = 1;
  curproc = 0;
  ipl = 0;
}

abbrev mutex : Kmutex
mutex = record { km_holder = some 1; km_waitq = 5 }

waits-IsSound : IsSound waits
unfolding count
waits-IsSound t q = ground arith

waits-Asleep : Asleep 5 waits
waits-Asleep t h = ground arith

broadcast-Released_example :
    (s' : Sched) × (sched_broadcast_on 5 waits ≡ done s') × Released 5 waits s'
broadcast-Released_example = broadcast-Released 5 (ground arith) waits waits-IsSound waits-Asleep

cancel-wakes_example : WasCancelled 2 5 waits
cancel-wakes_example = cancel-wakes 2 5 waits waits-IsSound (λ e. refl)

unlock-hands_over_example :
    (mtx' : Kmutex) × (s' : Sched) × (kmutex_unlock mutex waits ≡ done (mtx', s'))
    × Handed mutex waits mtx' s'
    × IsSound s'
unlock-hands_over_example = unlock-hands_over mutex waits waits-IsSound waits-Asleep refl refl

abbrev held_by_3 : Kmutex
held_by_3 = record { km_holder = some 3; km_waitq = 7 }

lock-takes_or_sleeps_example :
    (mtx' : Kmutex) × (s' : Sched) × (kmutex_lock [] held_by_3 waits ≡ done (mtx', s'))
    × Locks held_by_3 4 [] waits mtx' s'
    × IsSound s'
lock-takes_or_sleeps_example =
    lock-takes_or_sleeps [] held_by_3 4 [] waits waits-IsSound refl (ground arith) (ground arith)
      refl
