-- ===== src/Sched/Cancel.antt =====
-- sched_cancel: a sleep that is cut short.
use csci.Sched.Wakeup.{make_runnable-done, set_thread-IsSound}
use csci.Sched.Queues.{join-IsSound, leave-erase-IsSound, IsSound}
use csci.Sched.{
  sched_make_runnable, ktqueue_remove, erase, leave, join, KtState, kt_runq, set_thread, Sched,
  sched_cancel,
}
use csci.Prelude.{ap, ◌∙◌, Option, sym, none, refl, arith, ◌≢◌, some, true, ◌≡◌, ℕ}
use csci.Prelude.Outcome.{deref, ◌>>=◌, Outcome, done}

-- `thr` is cancelled, leaves `q` and is runnable.
abbrev pub cancelled : ℕ → ℕ → Sched → Sched
cancelled q thr s =
    let s' = set_thread thr (record (s.thread thr) { kt_cancelled = true }) s in
    join kt_runq thr (leave q thr (erase thr (s.tq_list q)) s')

-- What sched_cancel does to a thread that is on the queue `q` if it sleeps.
abbrev pub WasCancelled : ℕ → ℕ → Sched → Type 0
WasCancelled thr q s =
    (s' : Sched) × (sched_cancel thr s ≡ done s')
    × IsSound s'
    × ((s'.thread thr).kt_cancelled ≡ true)
    × ((s.thread thr).kt_state ≡ KtState.kt_sleep_cancellable → s' ≡ cancelled q thr s)
    × ((s.thread thr).kt_state ≢ KtState.kt_sleep_cancellable → s'.tq_list ≡ s.tq_list)

-- Where the queues are sound, and a thread in a cancellable sleep is on the queue `q`,
-- sched_cancel marks it, takes it off that queue and puts it on the run queue. A thread in any
-- other state is marked and stays on its queue. The queues stay sound.
pub cancel-wakes :
    (thr q : ℕ) (s : Sched)
    → IsSound s
    → ((s.thread thr).kt_state ≡ KtState.kt_sleep_cancellable → (s.thread thr).kt_wchan ≡ some q)
    → WasCancelled thr q s
unfolding sched_cancel ktqueue_remove
cancel-wakes thr q s sound on_q = go (s.thread thr).kt_state refl
  where
    marked : Sched
    marked = set_thread thr (record (s.thread thr) { kt_cancelled = true }) s

    rest : Option ℕ → Outcome Sched
    rest chan = do x ← deref chan; s' ← ktqueue_remove x thr marked; sched_make_runnable thr s'

    marked-sound : IsSound marked
    marked-sound = set_thread-IsSound thr _ s refl sound

    go : (st : KtState) → (s.thread thr).kt_state ≡ st → WasCancelled thr q s
    go KtState.kt_sleep_cancellable e =
        let chan : (marked.thread thr).kt_wchan ≡ some q = ground (arith, on_q e) in
        let (here, left) = leave-erase-IsSound q thr marked chan marked-sound in
        let s1 = leave q thr (erase thr (s.tq_list q)) marked in
        let opened : sched_cancel thr s ≡ rest (s.thread thr).kt_wchan =
          rw (e, sched_cancel) (rw (sym e) refl) in
        let free : (s1.thread thr).kt_wchan ≡ none = ground arith in
        (
          join kt_runq thr s1,
          opened ∙ ap rest (on_q e) ∙ rw here (make_runnable-done thr s1 free),
          join-IsSound kt_runq thr s1 free left,
          ground arith,
          λ f. refl,
          λ f. absurd (f e),
        )
    go KtState.kt_no_state e = (
      marked,
      rw (e, sched_cancel) (rw (sym e) refl),
      marked-sound,
      ground arith,
      λ f. cc,
      λ f. refl,
    )
    go KtState.kt_run e = (
      marked,
      rw (e, sched_cancel) (rw (sym e) refl),
      marked-sound,
      ground arith,
      λ f. cc,
      λ f. refl,
    )
    go KtState.kt_sleep e = (
      marked,
      rw (e, sched_cancel) (rw (sym e) refl),
      marked-sound,
      ground arith,
      λ f. cc,
      λ f. refl,
    )
    go KtState.kt_exited e = (
      marked,
      rw (e, sched_cancel) (rw (sym e) refl),
      marked-sound,
      ground arith,
      λ f. cc,
      λ f. refl,
    )
