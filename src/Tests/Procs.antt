-- ===== src/Tests/Procs.antt =====
-- The table with the idle process, at address 10, which runs.
use csci.Procs.{
  dispose, wait_scan, do_waitpid, Waited, lookup_loop, proc_lookup, ProcState, getid_loop,
  proc_getid, Procs, proc_create, Proc,
}
use csci.Procs.Waitpid.{do_waitpid-Decides, Decides}
use csci.Prelude.Outcome.{done, ◌>>=◌}
use csci.Prelude.{◌==◌, Option, if◌then◌else◌, ℕ, ◌≡◌, refl, [], none, arith, ◌∷◌, some}
use csci.Procs.Pids.{proc_getid-GivesId, GivesId}

abbrev idle : Proc
idle = record {
  p_pid = some 0;
  p_pproc = none;
  p_children = [];
  p_state = ProcState.proc_running;
  p_status = 0;
}

abbrev table : Procs
table = record {
  proc = λ p. idle;
  proc_list = 10 ∷ [];
  curproc = some 10;
  initproc = none;
  next_pid = 1;
}

proc_getid-GivesId_example : GivesId 4 table (proc_getid 4 table)
proc_getid-GivesId_example = proc_getid-GivesId 4 table (omega arith)

-- The init process gets the id 1.
init_created : (proc_create 4 11 table >>= λ s. done (proc_lookup 1 s)) ≡ done (some 11)
unfolding proc_create proc_getid getid_loop proc_lookup lookup_loop
init_created = refl

-- With room for one process, the second has the id -1.
no_id_left :
    (proc_create 1 11 (record table { next_pid = 0 }) >>= λ s. done (s.proc 11).p_pid) ≡ done none
unfolding proc_create proc_getid getid_loop proc_lookup lookup_loop
no_id_left = refl

-- The idle process waits for its children: 11, which runs, and 12, which is dead; both have the idle process
-- as their parent.
abbrev child : ℕ → ProcState → Proc
child pid state = record {
  p_pid = some pid;
  p_pproc = some 10;
  p_children = [];
  p_state = state;
  p_status = 7;
}

abbrev family : ℕ → Proc
family p =
    if p == 11
    then child 1 ProcState.proc_running
    else if p == 12
    then child 2 ProcState.proc_dead
    else record idle { p_children = 11 ∷ 12 ∷ [] }

abbrev waiting : Procs
waiting = record table { proc = family; proc_list = 10 ∷ 11 ∷ 12 ∷ []; next_pid = 3 }

do_waitpid-Decides_example : Decides 10 (some 2) waiting [] (do_waitpid 10 (some 2) waiting [])
do_waitpid-Decides_example = do_waitpid-Decides 10 (some 2) waiting []

-- The status of the child that was disposed of, if there is one.
abbrev status_of : Waited → Option ℕ
status_of (Waited.reaped id status s) = some status
status_of _ = none

second_reaped : status_of (do_waitpid 10 (some 2) waiting []) ≡ some 7
unfolding do_waitpid wait_scan dispose
second_reaped = refl

-- With -1 the process sleeps, since the first child runs, although the second is dead.
first_only : do_waitpid 10 none waiting [] ≡ Waited.sleeps
unfolding do_waitpid wait_scan
first_only = refl
