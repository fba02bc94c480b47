-- ===== src/Mmap.antt =====
-- Homework/Kernel/vm/mmap.c: do_munmap.
use csci.Vmmap.Effects.{vmmap_remove}
use csci.Prelude.Words.{add32}
use csci.Prelude.Outcome.{◌>>=◌, done, Outcome}
use csci.Prelude.{◌%◌, if◌then◌else◌, ◌+◌, ◌==◌, ◌/◌, ltb, ◌||◌, not, List, Bool, ℕ}
use csci.Paging.{ok, user_space, einval, err, Reply, Paging}
use csci.Vmmap.{Vmarea, World}
pub mod Munmap

-- The test of the arguments of do_munmap: whether it returns -EINVAL.
unfoldable pub refuses_munmap : Paging → ℕ → ℕ → Bool
refuses_munmap pg addr len =
    not (pg.page_aligned addr)
    || (ltb pg.mem_high (add32 addr len)
        || (ltb (add32 addr len) pg.mem_low || (len == 0 || ltb pg.mem_high len)))

module _ {W : Type 0} (k : World W) (pg : Paging) where
  unfoldable pub do_munmap : ℕ → ℕ → List Vmarea → W → Outcome (Reply (Unit {0}) × List Vmarea × W)
  unfolding refuses_munmap
  do_munmap addr len map w =
      let npages = len / 4096 + (if len % 4096 == 0 then 0 else 1) in
      if refuses_munmap pg addr len then done (err einval, map, w) else do
        (map', w') ← vmmap_remove k (user_space pg) map (pg.addr_to_pn addr) npages w
        done (ok tt, map', k.tlb_flush_all w')
