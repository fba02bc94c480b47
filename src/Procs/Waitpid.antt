-- ===== src/Procs/Waitpid.antt =====
-- do_waitpid: which child is disposed of, and the table without it.
use csci.Procs.Fields.{update-field}
use csci.Procs.{
  do_waitpid, wait_scan, dispose, is_dead, proc_lookup, is_pid, waits_for, Waited, Proc, Procs,
  lookup_loop,
}
use csci.Prelude.{
  sym, ◌∙◌, ap, arith, refl, inr, ==_iff, inl, ◌==◌, ==_refl, [], Bool-cases, false, ◌++◌, none,
  true, ◌≡◌, ◌∷◌, List, Option, ℕ,
}
use mathlib.Core.Path.{subst}
use mathlib.Core.List.{append-nil, append_assoc}
use csci.Sched.{erase, update}

-- No process of the list is waited for.
abbrev pub NoneOf : Option ℕ → Procs → List ℕ → Type 0
NoneOf pid s [] = Unit
NoneOf pid s (c ∷ cs) = (waits_for pid (s.proc c) ≡ false) × NoneOf pid s cs

-- The table without the process `c`: it has no parent, it is not among the children of its parent, which
-- are `others` then, and a lookup of an id that it did not have finds what it found.
pub record Gone (parent c : ℕ) (others : List ℕ) (s s' : Procs) : Type 0 where
  pub no_parent : (s'.proc c).p_pproc ≡ none
  pub children : (s'.proc parent).p_children ≡ others
  pub table : s'.proc_list ≡ erase c s.proc_list
  pub lookups : (x : ℕ) → is_pid x (s.proc c).p_pid ≡ false → proc_lookup x s' ≡ proc_lookup x s

-- What a scan of the children comes to. The child that counts is the first one that is waited for.
pub data Waits (parent : ℕ) (pid : Option ℕ) (s : Procs) (children : List ℕ) : Waited → Type 0 where
  no_child : NoneOf pid s children → Waits parent pid s children Waited.echild
  alive :
      (before after : List ℕ) (c : ℕ)
      → children ≡ before ++ c ∷ after
      → NoneOf pid s before
      → waits_for pid (s.proc c) ≡ true
      → is_dead (s.proc c) ≡ false
      → Waits parent pid s children Waited.sleeps
  dead :
      (before after : List ℕ) (c : ℕ) (s' : Procs)
      → children ≡ before ++ c ∷ after
      → NoneOf pid s before
      → waits_for pid (s.proc c) ≡ true
      → is_dead (s.proc c) ≡ true
      → Gone parent c (before ++ after) s s'
      → Waits parent pid s children (Waited.reaped (s.proc c).p_pid (s.proc c).p_status s')

-- A process that is waited for is not among those that are not.
erase-NoneOf :
    (pid : Option ℕ) (s : Procs) (before after : List ℕ) (c : ℕ)
    → NoneOf pid s before
    → waits_for pid (s.proc c) ≡ true
    → erase c (before ++ c ∷ after) ≡ before ++ after
unfolding erase
erase-NoneOf pid s [] after c h w = rw (==_refl c) refl
erase-NoneOf pid s (x ∷ xs) after c h w = elim (Bool-cases (x == c)) [
  | inl e ↦
      let same : x ≡ c = (==_iff x c).0 e in
      let not_x : waits_for pid (s.proc c) ≡ false = rw (← same) h.0 in
      absurd (ground (arith, not_x, w))
  | inr e ↦ rw e (ap (λ l. x ∷ l) (erase-NoneOf pid s xs after c h.1 w))
]

lookup-same :
    (proc proc' : ℕ → Proc) (x : ℕ) (xs : List ℕ)
    → ((q : ℕ) → (proc' q).p_pid ≡ (proc q).p_pid)
    → lookup_loop proc' x xs ≡ lookup_loop proc x xs
unfolding lookup_loop
lookup-same proc proc' x [] same = refl
lookup-same proc proc' x (q ∷ qs) same = rw (same q, lookup-same proc proc' x qs same) refl

-- Lookups of other ids in a table without `c`.
lookup-erase :
    (proc proc' : ℕ → Proc) (c x : ℕ) (xs : List ℕ)
    → ((q : ℕ) → (proc' q).p_pid ≡ (proc q).p_pid)
    → is_pid x (proc c).p_pid ≡ false
    → lookup_loop proc' x (erase c xs) ≡ lookup_loop proc x xs
unfolding lookup_loop erase
lookup-erase proc proc' c x [] same other = refl
lookup-erase proc proc' c x (q ∷ qs) same other = elim (Bool-cases (q == c)) [
  | inl e ↦
      let is_c : q ≡ c = (==_iff q c).0 e in
      let passed : is_pid x (proc q).p_pid ≡ false = rw is_c other in
      rw (e, passed) (lookup-same proc proc' x qs same)
  | inr e ↦ rw (e, same q, lookup-erase proc proc' c x qs same other) refl
]

update-same : (f : ℕ → Proc) (c : ℕ) (n : Proc) → update f c n c ≡ n
update-same f c n = rw (==_refl c) refl

dispose-dead :
    (parent c : ℕ) (pid : Option ℕ) (s : Procs) (before after : List ℕ)
    → (s.proc parent).p_children ≡ before ++ c ∷ after
    → NoneOf pid s before
    → waits_for pid (s.proc c) ≡ true
    → is_dead (s.proc c) ≡ true
    → Waits parent pid s (s.proc parent).p_children (dispose parent c s)
unfolding dispose proc_lookup
dispose-dead parent c pid s before after e none_before w d =
    let no_parent : Proc = record (s.proc c) { p_pproc = none } in
    let orphan = update s.proc c no_parent in
    let fewer : Proc = record (orphan parent) { p_children = erase c (orphan parent).p_children } in
    let proc' = update orphan parent fewer in
    Waits.dead before after c (record s { proc = proc'; proc_list = erase c s.proc_list }) e
      none_before w d
      (record {
        no_parent =
            update-field (λ p. p.p_pproc) orphan parent c fewer refl
            ∙ ap (λ p. p.p_pproc) (update-same s.proc c no_parent);
        children =
            ap (λ p. p.p_children) (update-same orphan parent fewer)
            ∙ ap (erase c) (update-field (λ p. p.p_children) s.proc c parent no_parent refl ∙ e)
            ∙ erase-NoneOf pid s before after c none_before w;
        table = refl;
        lookups = λ x other.
            lookup-erase s.proc proc' c x s.proc_list
              (λ q.
                update-field (λ p. p.p_pid) orphan parent q fewer refl
                ∙ update-field (λ p. p.p_pid) s.proc c q no_parent refl)
              other;
      })

NoneOf-snoc :
    (pid : Option ℕ) (s : Procs) (before : List ℕ) (c : ℕ)
    → NoneOf pid s before
    → waits_for pid (s.proc c) ≡ false
    → NoneOf pid s (before ++ c ∷ [])
NoneOf-snoc pid s [] c h e = (e, tt)
NoneOf-snoc pid s (x ∷ xs) c h e = (h.0, NoneOf-snoc pid s xs c h.1 e)

wait_scan-Waits :
    (parent : ℕ) (pid : Option ℕ) (s : Procs) (before cs : List ℕ)
    → (s.proc parent).p_children ≡ before ++ cs
    → NoneOf pid s before
    → Waits parent pid s (s.proc parent).p_children (wait_scan parent pid cs s)
unfolding wait_scan
wait_scan-Waits parent pid s before [] e h =
    Waits.no_child (subst (NoneOf pid s) (sym (e ∙ append-nil before)) h)
wait_scan-Waits parent pid s before (c ∷ cs) e h = elim (Bool-cases (waits_for pid (s.proc c))) [
  | inl w ↦ elim (Bool-cases (is_dead (s.proc c))) [
    | inl d ↦ rw (w, d) (dispose-dead parent c pid s before cs e h w d)
    | inr a ↦ rw (w, a) (Waits.alive before cs c e h w a)
  ]
  | inr n ↦ rw n (
      wait_scan-Waits parent pid s (before ++ c ∷ []) cs (e ∙ sym (append_assoc before (c ∷ []) cs))
        (NoneOf-snoc pid s before c h n))
]

-- What do_waitpid comes to: the first scan that does not let the process sleep decides, of those of the table
-- at the call and of the tables at the wake-ups; without one, the process sleeps.
pub data Decides (parent : ℕ) (pid : Option ℕ) : Procs → List Procs → Waited → Type 0 where
  last :
      {s : Procs} {o : Waited}
      → Waits parent pid s (s.proc parent).p_children o
      → Decides parent pid s [] o
  no_child :
      {s : Procs} {woken : List Procs}
      → Waits parent pid s (s.proc parent).p_children Waited.echild
      → Decides parent pid s woken Waited.echild
  reaped :
      {s : Procs} {woken : List Procs} {id : Option ℕ} {status : ℕ} {s' : Procs}
      → Waits parent pid s (s.proc parent).p_children (Waited.reaped id status s')
      → Decides parent pid s woken (Waited.reaped id status s')
  again :
      {s t : Procs} {woken : List Procs} {o : Waited}
      → Waits parent pid s (s.proc parent).p_children Waited.sleeps
      → Decides parent pid t woken o
      → Decides parent pid s (t ∷ woken) o

-- The first scan and what follows.
then_again :
    (parent : ℕ) (pid : Option ℕ) (s t : Procs) (woken : List Procs) (first rest : Waited)
    → Waits parent pid s (s.proc parent).p_children first
    → Decides parent pid t woken rest
    → Decides parent pid s (t ∷ woken) (elim first [
      | Waited.reaped id status s' ↦ Waited.reaped id status s'
      | Waited.sleeps ↦ rest
      | Waited.echild ↦ Waited.echild
    ])
then_again parent pid s t woken (Waited.reaped id status s') rest w d = Decides.reaped w
then_again parent pid s t woken Waited.sleeps rest w d = Decides.again w d
then_again parent pid s t woken Waited.echild rest w d = Decides.no_child w

-- do_waitpid scans the children of the process at the call and at each wake-up, until a scan does not let it
-- sleep. A scan looks at the first child that is waited for: if there is none, the result is -ECHILD; if
-- it is not dead, the process sleeps; if it is dead, the result is its id and its status, and it is gone
-- from the table and from the children, while lookups of other ids find what they found.
pub do_waitpid-Decides :
    (parent : ℕ) (pid : Option ℕ) (s : Procs) (woken : List Procs)
    → Decides parent pid s woken (do_waitpid parent pid s woken)
unfolding do_waitpid
do_waitpid-Decides parent pid s [] =
    Decides.last (wait_scan-Waits parent pid s [] (s.proc parent).p_children refl tt)
do_waitpid-Decides parent pid s (t ∷ woken) =
    then_again parent pid s t woken (wait_scan parent pid (s.proc parent).p_children s)
      (do_waitpid parent pid t woken)
      (wait_scan-Waits parent pid s [] (s.proc parent).p_children refl tt)
      (do_waitpid-Decides parent pid t woken)
