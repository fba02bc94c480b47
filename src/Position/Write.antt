-- ===== src/Position/Write.antt =====
-- do_write of Homework/Kernel/fs/vfs_syscall.c. The modes of a file and the write of a vnode stand beside
-- what do_read and do_lseek use.
use csci.Files.{FileTable, Refs, open_file}
use csci.Paging.{Reply, ebadf, err, ok}
use csci.Position.{File, VnodeOps, Whence, do_lseek, int_sum, set_pos}
use csci.Prelude.Outcome.{Outcome, done, kassert, ◌>>=◌, ◌>>◌}
use csci.Prelude.{true, some, if◌then◌else◌, none, false, Bool, ℕ, ℤ, leb, not, ◌&&◌, ◌||◌}
pub mod Appends

-- The modes of a file, the write of a vnode, and whether a vnode is a device or a regular file.
pub record WriteOps (W : Type 0) : Type 0 where
  pub fmode_write : ℕ → Bool
  pub fmode_append : ℕ → Bool
  pub write : ℕ → ℤ → ℕ → W → ℤ × W
  pub is_device : ℕ → Bool
  pub is_regular : ℕ → Bool

abbrev pub at_most : ℤ → ℤ → Bool
at_most (ℤ.pos a) (ℤ.pos b) = leb a b
at_most (ℤ.pos a) (ℤ.negsuc b) = false
at_most (ℤ.negsuc a) (ℤ.pos b) = true
at_most (ℤ.negsuc a) (ℤ.negsuc b) = leb b a

module _ {W : Type 0} (k : Refs W) (ops : VnodeOps W) (wr : WriteOps W) where
  -- The assertion on the position.
  abbrev pub cursor_fits : ℕ → ℤ → W → Bool
  cursor_fits v p w = wr.is_device v || (wr.is_regular v && at_most p (ops.vn_len v w))

  -- From the write of the vnode on.
  unfoldable pub write_at : ℕ → ℕ → (ℕ → File) → W → Outcome (Reply ℤ × (ℕ → File) × W)
  unfolding int_sum
  write_at f nbytes files w = do
    let r = wr.write (files f).f_vnode (files f).f_pos nbytes w
    p ← int_sum (files f).f_pos r.0
    kassert (cursor_fits (files f).f_vnode p r.1)
    done (ok r.0, set_pos f p files, k.fput f r.1)

  -- do_write past the test of the descriptor, which has the file `f`. The result of do_lseek is not used.
  unfoldable pub write_file :
      ℤ → ℕ → ℕ → FileTable → (ℕ → File) → W → Outcome (Reply ℤ × (ℕ → File) × W)
  unfolding do_lseek write_at
  write_file fd f nbytes table files w =
      let w1 = k.fget f w in
      if not (wr.fmode_write f || wr.fmode_append f)
      then done (err ebadf, files, k.fput f w1)
      else if wr.fmode_append f
      then (do_lseek k ops fd (ℤ.pos 0) Whence.seek_end table files w1 >>= λ s.
          write_at f nbytes s.1 s.2)
      else write_at f nbytes files w1

  unfoldable pub do_write : ℤ → ℕ → FileTable → (ℕ → File) → W → Outcome (Reply ℤ × (ℕ → File) × W)
  unfolding open_file write_file
  do_write fd nbytes table files w = elim (open_file table fd) [
    | none ↦ done (err ebadf, files, w)
    | some f ↦ write_file fd f nbytes table files w
  ]
