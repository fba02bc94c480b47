-- ===== src/Procs/Create.antt =====
-- proc_create: the process table with the new process.
use csci.Procs.Pids.{Taken, Before}
use csci.Prelude.Outcome.{wild, panic, done, Outcome}
use csci.Procs.{proc_lookup, ProcState, Procs, is_pid, Proc}
use csci.Prelude.{
  ◌≢◌, ◌+◌, ◌%◌, is_nil, ◌<◌, true, is_none, [], ◌∷◌, ◌++◌, false, ◌==◌, if◌then◌else◌, ◌≡◌, none,
  some, ℕ, Option,
}

abbrev or_else : Option ℕ → Option ℕ → Option ℕ
or_else (some q) o = some q
or_else none o = o

abbrev new_proc : Option ℕ → Option ℕ → Proc
new_proc parent pid = record {
  p_pid = pid;
  p_pproc = parent;
  p_children = [];
  p_state = ProcState.proc_running;
  p_status = 0;
}

-- The process `p` has entered the table with the id `n`, which was free, and lookups of other ids find what
-- they found.
pub record Entered (n p : ℕ) (s s' : Procs) : Type 0 where
  pub free : proc_lookup n s ≡ none
  pub found : proc_lookup n s' ≡ some p
  pub others : (x : ℕ) → (x == n) ≡ false → proc_lookup x s' ≡ proc_lookup x s

-- The process `p` has joined the table at its end and the children of the process that runs, with the id `id`. No other
-- process has changed.
pub record Joined (p : ℕ) (id : Option ℕ) (next : ℕ) (s s' : Procs) : Type 0 where
  pub table : s'.proc_list ≡ s.proc_list ++ p ∷ []
  pub pid : (s'.proc p).p_pid ≡ id
  pub parent : (s'.proc p).p_pproc ≡ s.curproc
  pub state : (s'.proc p).p_state ≡ ProcState.proc_running
  pub status : (s'.proc p).p_status ≡ 0
  pub child :
      (c : ℕ)
      → s.curproc ≡ some c
      → c ≢ p
      → (s'.proc c).p_children ≡ (s.proc c).p_children ++ p ∷ []
  pub others : (q : ℕ) → q ≢ p → s.curproc ≢ some q → s'.proc q ≡ s.proc q
  pub current : s'.curproc ≡ s.curproc
  pub initproc : s'.initproc ≡ (if is_pid 1 id then some p else s.initproc)
  pub next_pid : s'.next_pid ≡ next

-- What proc_create does: it enters the process with the first free id; with all ids taken, it enters it
-- with the id -1, which no lookup finds; it stops at an assertion if the id is 0 and the table is not
-- empty, or the id is 1 and the process that runs is not the idle process; it reads through NULL if the id is 1 and
-- no process runs.
pub data Creates (max p : ℕ) (s : Procs) : Outcome Procs → Type 0 where
  made :
      (n : ℕ) (s' : Procs)
      → n < max
      → ((x : ℕ) → x < max → Before s.next_pid n x → Taken s x)
      → Entered n p s s'
      → Joined p (some n) ((n + 1) % max) s s'
      → Creates max p s (done s')
  without_id :
      (s' : Procs)
      → ((x : ℕ) → x < max → Taken s x)
      → ((x : ℕ) → proc_lookup x s' ≡ proc_lookup x s)
      → Joined p none s.next_pid s s'
      → Creates max p s (done s')
  second_idle :
      is_none (proc_lookup 0 s) ≡ true → is_nil s.proc_list ≡ false → Creates max p s panic
  not_under_idle :
      (c : ℕ)
      → is_none (proc_lookup 1 s) ≡ true
      → s.curproc ≡ some c
      → is_pid 0 (s.proc c).p_pid ≡ false
      → Creates max p s panic
  no_curproc : is_none (proc_lookup 1 s) ≡ true → s.curproc ≡ none → Creates max p s wild
