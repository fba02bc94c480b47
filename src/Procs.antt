-- ===== src/Procs.antt =====
-- Homework/Kernel/proc/proc.c: the process table and the ids of processes. A process is named by its
-- address; PROC_MAX_COUNT is a parameter.
pub mod Create
pub mod Fields
pub mod Pids
pub mod Waitpid
use csci.Prelude.Outcome.{kassert, ◌>>◌, done, wild, out_of_fuel, ◌>>=◌, Outcome}
use csci.Prelude.{
  zero, is_nil, is_none, ◌%◌, ◌||◌, true, ◌+◌, ◌==◌, suc, some, if◌then◌else◌, ◌∷◌, ◌++◌, false,
  Bool, [], List, none, Option, ℕ, not,
}
use csci.Sched.{erase, update}

pub data ProcState : Type 0 where
  proc_running proc_dead : ProcState

-- The fields of proc_t that the table is made of. A p_pid of `none` is -1.
pub record Proc : Type 0 where
  pub p_pid : Option ℕ
  pub p_pproc : Option ℕ
  pub p_children : List ℕ
  pub p_state : ProcState
  pub p_status : ℕ

pub record Procs : Type 0 where
  pub proc : ℕ → Proc
  pub proc_list : List ℕ
  pub curproc : Option ℕ
  pub initproc : Option ℕ
  pub next_pid : ℕ

abbrev pub pid_idle : ℕ
pid_idle = 0

abbrev pub pid_init : ℕ
pid_init = 1

-- p->p_pid == pid
abbrev pub is_pid : ℕ → Option ℕ → Bool
is_pid pid none = false
is_pid pid (some n) = n == pid

unfoldable pub lookup_loop : (ℕ → Proc) → ℕ → List ℕ → Option ℕ
lookup_loop proc pid [] = none
lookup_loop proc pid (p ∷ ps) =
    let rest = lookup_loop proc pid ps in if is_pid pid (proc p).p_pid then some p else rest

unfoldable pub proc_lookup : ℕ → Procs → Option ℕ
unfolding lookup_loop
proc_lookup pid s = lookup_loop s.proc pid s.proc_list

-- The loop of _proc_getid at `pid`: a scan of the table that meets the id goes on with the next one, and
-- gives -1 when it is back at next_pid. The scan meets the id if proc_lookup finds it.
unfoldable pub getid_loop : ℕ → ℕ → ℕ → Procs → Outcome (Option ℕ)
unfolding proc_lookup
getid_loop zero max pid s = out_of_fuel
getid_loop (suc fuel) max pid s =
    let rest = getid_loop fuel max ((pid + 1) % max) s in
    if is_none (proc_lookup pid s)
    then done (some pid)
    else if (pid + 1) % max == s.next_pid
    then done none
    else rest

-- The id, and the table with the new next_pid.
unfoldable pub proc_getid : ℕ → Procs → Outcome (Option ℕ × Procs)
unfolding getid_loop
proc_getid max s = do
  pid ← getid_loop max max s.next_pid s
  done (pid, elim pid [ none ↦ s | some n ↦ record s { next_pid = (n + 1) % max } ])

-- KASSERT(PID_INIT != pid || PID_IDLE == curproc->p_pid)
abbrev pub under_idle : Option ℕ → Procs → Outcome Bool
under_idle pid s =
    if is_pid pid_init pid
    then elim s.curproc [ none ↦ wild | some c ↦ done (is_pid pid_idle (s.proc c).p_pid) ]
    else done true

-- The new process joins the children of curproc, and the table.
abbrev pub enter_child : ℕ → Procs → Procs
enter_child p s = elim s.curproc [
  | none ↦ s
  | some c ↦ record s {
    proc = update s.proc c (record (s.proc c) { p_children = (s.proc c).p_children ++ p ∷ [] });
  }
]

abbrev pub enter_proc : ℕ → Option ℕ → Procs → Procs
enter_proc p pid s =
    let new : Proc = record {
      p_pid = pid;
      p_pproc = s.curproc;
      p_children = [];
      p_state = ProcState.proc_running;
      p_status = 0;
    } in
    let s1 = enter_child p (record s { proc = update s.proc p new }) in
    record s1 {
      proc_list = s1.proc_list ++ p ∷ [];
      initproc = if is_pid pid_init pid then some p else s1.initproc;
    }

-- proc_create, on the process table; `p` is what slab_obj_alloc gives. The name, the threads, the wait queue,
-- the page directory, the directory, the files and the address space of the process are left out.
unfoldable pub proc_create : ℕ → ℕ → Procs → Outcome Procs
unfolding proc_getid
proc_create max p s0 = do
  r ← proc_getid max s0
  kassert (not (is_pid pid_idle r.0) || is_nil r.1.proc_list)
  ok ← under_idle r.0 r.1
  kassert ok
  done (enter_proc p r.0 r.1)

-- What a pass of do_waitpid over the children comes to. `reaped` has the returned id, the status, and
-- the table; `echild` is -ECHILD.
pub data Waited : Type 0 where
  reaped : Option ℕ → ℕ → Procs → Waited
  sleeps : Waited
  echild : Waited

-- p->p_pid == pid || pid == -1
abbrev pub waits_for : Option ℕ → Proc → Bool
waits_for none p = true
waits_for (some pid) p = is_pid pid p.p_pid

abbrev pub is_dead : Proc → Bool
is_dead p = elim p.p_state [ ProcState.proc_running ↦ false | ProcState.proc_dead ↦ true ]

-- The child `c` of the process `parent` leaves the table. Its thread, its page directory and its memory are
-- given back outside of the table; the id that is returned is read from the memory after that, and
-- is taken to be what it was.
unfoldable pub dispose : ℕ → ℕ → Procs → Waited
dispose parent c s =
    let orphan = update s.proc c (record (s.proc c) { p_pproc = none }) in
    let proc' =
      update orphan parent
        (record (orphan parent) { p_children = erase c (orphan parent).p_children }) in
    Waited.reaped (s.proc c).p_pid (s.proc c).p_status
      (record s { proc = proc'; proc_list = erase c s.proc_list })

-- The scan of the children from findpid.
unfoldable pub wait_scan : ℕ → Option ℕ → List ℕ → Procs → Waited
unfolding dispose
wait_scan parent pid [] s = Waited.echild
wait_scan parent pid (c ∷ cs) s =
    let rest = wait_scan parent pid cs s in
    if waits_for pid (s.proc c)
    then (if is_dead (s.proc c) then dispose parent c s else Waited.sleeps)
    else rest

-- do_waitpid, with a scan at first and one each time the process is woken up: the tables that it finds
-- then are `woken`. It is asleep if the last of them lets it sleep again.
unfoldable pub do_waitpid : ℕ → Option ℕ → Procs → List Procs → Waited
unfolding wait_scan
do_waitpid parent pid s [] = wait_scan parent pid (s.proc parent).p_children s
do_waitpid parent pid s (t ∷ woken) =
    let again = do_waitpid parent pid t woken in
    elim (wait_scan parent pid (s.proc parent).p_children s) [
      | Waited.reaped id status s' ↦ Waited.reaped id status s'
      | Waited.sleeps ↦ again
      | Waited.echild ↦ Waited.echild
    ]
