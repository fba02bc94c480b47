-- ===== src/Sched/Switch.antt =====
-- sched_switch: which thread runs next.
use csci.Prelude.Outcome.{done}
use csci.Sched.Queues.{leave_tail-IsSound, IsSound}
use csci.Prelude.{
  is_nil, arith, refl, ◌∙◌, ap, [], ◌∷◌, ◌++◌, ◌==◌, false, if◌then◌else◌, ◌≡◌, List, ℕ,
}
use csci.Sched.{
  ipl_high, kt_runq, leave, set_thread, Sched, sched_queue_empty, sched_switch, wait_runnable,
}
use csci.Sched.Wakeup.{set_thread-IsSound, dequeue-done, is_nil-tail}

-- The state in which `thr` goes on, with the level that it saved when it went to sleep. The level of the
-- thread that was current is saved.
abbrev pub switched : ℕ → List ℕ → Sched → Sched
switched thr xs s =
    let saved = set_thread s.curthr (record (s.thread s.curthr) { kt_ipl = s.ipl }) s in
    let s' = leave kt_runq thr xs saved in
    record s' {
      curthr = thr;
      curproc = (s.thread thr).kt_proc;
      ipl = if thr == s.curthr then s.ipl else (s.thread thr).kt_ipl;
    }

wait_runnable-done :
    (handlers : List (Sched → Sched)) (s : Sched)
    → is_nil (s.tq_list kt_runq) ≡ false
    → wait_runnable handlers s ≡ done s
unfolding wait_runnable sched_queue_empty
wait_runnable-done [] s e = rw (e, wait_runnable)
wait_runnable-done (h ∷ hs) s e = rw (e, wait_runnable)

-- Where the queues are sound and a thread is on the run queue, sched_switch does not wait for an
-- interrupt: the thread that has waited longest leaves the queue and goes on with the level that
-- it saved, and the level of the thread that was current is saved. The queues stay sound.
pub switch-next :
    (handlers : List (Sched → Sched)) (thr : ℕ) (xs : List ℕ) (s : Sched)
    → IsSound s
    → s.tq_list kt_runq ≡ xs ++ thr ∷ []
    → (sched_switch handlers s ≡ done (switched thr xs s)) × IsSound (switched thr xs s)
unfolding sched_switch
switch-next handlers thr xs s sound e =
    let saved = set_thread s.curthr (record (s.thread s.curthr) { kt_ipl = s.ipl }) s in
    let high = record saved { ipl = ipl_high } in
    let full : is_nil (s.tq_list kt_runq) ≡ false = ap is_nil e ∙ is_nil-tail xs thr in
    (
      rw (wait_runnable-done handlers high full)
          (rw (dequeue-done kt_runq thr xs high e) (ground arith)),
      (leave_tail-IsSound kt_runq thr xs saved e (set_thread-IsSound s.curthr _ s refl sound)).1,
    )
