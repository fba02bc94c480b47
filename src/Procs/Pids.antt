-- ===== src/Procs/Pids.antt =====
-- _proc_getid: the id that it finds.
use csci.Prelude.{
  ==_iff, zero, none, some, inr, ◌==◌, inl, Bool-cases, false, true, ◌%◌, ◌-◌, ◌≡◌, suc, arith, leb,
  ◌⊎◌, ◌+◌, Option, ◌≤◌, ◌<◌, is_none, if◌then◌else◌, ℕ,
}
use native.Mathlib.Nat.{mod_self, mod-eq_of_lt}
use mathlib.Core.Path.{subst}
use csci.Prelude.Outcome.{◌>>=◌, done, Outcome}
use csci.Procs.{proc_getid, proc_lookup, getid_loop, Procs}

-- The ids from `next` on that come before `pid`, where the ids go round.
abbrev pub Before : ℕ → ℕ → ℕ → Type 0
Before next pid x = ((next ≤ x) × (x < pid)) ⊎ ((pid < next) × ((next ≤ x) ⊎ (x < pid)))

-- The scans that are left when the loop is at `pid`.
abbrev left_over : ℕ → ℕ → ℕ → ℕ
left_over max next pid = if leb next pid then max - pid + next else next - pid

-- The id that is tried after `pid`.
abbrev Follows : ℕ → ℕ → ℕ → Type 0
Follows max pid pid' = ((pid' ≡ pid + 1) × (pid + 1 < max)) ⊎ ((pid' ≡ 0) × (pid + 1 ≡ max))

round-Follows : (max pid : ℕ) → pid < max → Follows max pid ((pid + 1) % max)
round-Follows max pid lt = elim (Bool-cases (pid + 1 == max)) [
  | inl e ↦ let last : pid + 1 ≡ max = ground (arith, e) in inr (rw last (mod_self max), last)
  | inr e ↦ let below : pid + 1 < max = ground (arith, lt, e) in inl (mod-eq_of_lt below, below)
]

-- Back at next_pid every id was tried, and otherwise one more.
all_tried :
    (max pid next x : ℕ)
    → Follows max pid next
    → pid < max
    → x < max
    → (x ≡ pid) ⊎ Before next pid x
all_tried max pid next x f lt lt' = ground (arith, f, lt, lt')

one_more :
    (max pid pid' next x : ℕ)
    → Follows max pid pid'
    → (pid' == next) ≡ false
    → pid < max
    → next < max
    → x < max
    → Before next pid' x
    → (x ≡ pid) ⊎ Before next pid x
one_more max pid pid' next x f on lt lt' lt'' b = ground (arith, f, on, lt, lt', lt'', b)

fewer_left :
    (max pid pid' next : ℕ)
    → Follows max pid pid'
    → (pid' == next) ≡ false
    → pid < max
    → next < max
    → (pid' < max) × (left_over max next pid' < left_over max next pid)
fewer_left max pid pid' next f on lt lt' = ground (arith, f, on, lt, lt')

-- An id that a process of the table has.
abbrev pub Taken : Procs → ℕ → Type 0
Taken s x = is_none (proc_lookup x s) ≡ false

-- What the loop gives: the first free id from next_pid on, or -1 if every id below `max` is taken.
data FreeId (max : ℕ) (s : Procs) : Outcome (Option ℕ) → Type 0 where
  found :
      (pid : ℕ)
      → pid < max
      → is_none (proc_lookup pid s) ≡ true
      → ((x : ℕ) → x < max → Before s.next_pid pid x → Taken s x)
      → FreeId max s (done (some pid))
  full : ((x : ℕ) → x < max → Taken s x) → FreeId max s (done none)

getid_loop-FreeId :
    (fuel max pid : ℕ) (s : Procs)
    → pid < max
    → s.next_pid < max
    → left_over max s.next_pid pid ≤ fuel
    → ((x : ℕ) → x < max → Before s.next_pid pid x → Taken s x)
    → FreeId max s (getid_loop fuel max pid s)
unfolding getid_loop
getid_loop-FreeId zero max pid s lt lt' enough seen = absurd (ground (arith, lt, lt', enough))
getid_loop-FreeId (suc fuel) max pid s lt lt' enough seen =
    elim (Bool-cases (is_none (proc_lookup pid s))) [
      | inl free ↦ rw free (FreeId.found pid lt free seen)
      | inr taken ↦
          let after = round-Follows max pid lt in
          let here : (x : ℕ) → x < max → (x ≡ pid) ⊎ Before s.next_pid pid x → Taken s x =
            λ x lx h. elim h [ inl same ↦ rw same taken | inr b ↦ seen x lx b ] in
          elim (Bool-cases ((pid + 1) % max == s.next_pid)) [
            | inl back ↦
                let same : (pid + 1) % max ≡ s.next_pid =
                  (==_iff ((pid + 1) % max) s.next_pid).0 back in
                rw (taken, back)
                  (FreeId.full λ x lx.
                    here x lx
                      (all_tried max pid s.next_pid x (subst (Follows max pid) same after) lt lx))
            | inr on ↦
                let (below, less) =
                  fewer_left max pid ((pid + 1) % max) s.next_pid after on lt lt' in
                rw (taken, on)
                  (getid_loop-FreeId fuel max ((pid + 1) % max) s below lt'
                    (omega (arith, less, enough))
                    λ x lx b.
                      here x lx
                        (one_more max pid ((pid + 1) % max) s.next_pid x after on lt lt' lx b))
          ]
    ]

-- The same of _proc_getid, with the next_pid that it leaves.
pub data GivesId (max : ℕ) (s : Procs) : Outcome (Option ℕ × Procs) → Type 0 where
  found :
      (pid : ℕ)
      → pid < max
      → is_none (proc_lookup pid s) ≡ true
      → ((x : ℕ) → x < max → Before s.next_pid pid x → Taken s x)
      → GivesId max s (done (some pid, record s { next_pid = (pid + 1) % max }))
  full : ((x : ℕ) → x < max → Taken s x) → GivesId max s (done (none, s))

gives :
    (max : ℕ) (s : Procs) (o : Outcome (Option ℕ))
    → FreeId max s o
    → GivesId max s (
        o >>= λ pid.
        done (pid, elim pid [ none ↦ s | some n ↦ record s { next_pid = (n + 1) % max } ]))
gives max s o (FreeId.found pid lt free seen) = GivesId.found pid lt free seen
gives max s o (FreeId.full all) = GivesId.full all

-- _proc_getid ends. It gives the first id from next_pid on that no process has, going round at
-- PROC_MAX_COUNT, and moves next_pid behind it; it gives -1, and leaves next_pid as it is, only if every
-- id is taken. next_pid is below PROC_MAX_COUNT.
pub proc_getid-GivesId : (max : ℕ) (s : Procs) → s.next_pid < max → GivesId max s (proc_getid max s)
unfolding proc_getid
proc_getid-GivesId max s lt = gives max s (getid_loop max max s.next_pid s) (
    getid_loop-FreeId max max s.next_pid s lt lt (ground arith) λ x lx b. absurd (omega (arith, b)))
