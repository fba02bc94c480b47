-- ===== src/Position.antt =====
-- The position in an open file: do_lseek and do_read of Homework/Kernel/fs/vfs_syscall.c. A file_t is
-- a number, as in Files; its position and the sizes are ints, and a sum that is no int is an overflow.
pub mod Seek
pub mod Write
use csci.Paging.{ok, einval, eisdir, ebadf, err, Reply}
use csci.Prelude.Outcome.{◌>>=◌, wild, done, Outcome}
use csci.Prelude.{not, some, is_negative, none, plus, ltb, if◌then◌else◌, Option, Bool, ℕ, ℤ}
use csci.Files.{Refs, FileTable, open_file}
use csci.Sched.{update}

pub record File : Type 0 where
  pub f_pos : ℤ
  pub f_vnode : ℕ
  pub fmode_read : Bool

-- The operations of a vnode: the length, whether read is not NULL, and the read.
pub record VnodeOps (W : Type 0) : Type 0 where
  pub vn_len : ℕ → W → ℤ
  pub has_read : ℕ → Bool
  pub read : ℕ → ℤ → ℕ → W → ℤ × W

pub data Whence : Type 0 where
  seek_set seek_cur seek_end other_whence : Whence

abbrev pub is_int : ℤ → Bool
is_int (ℤ.pos n) = ltb n 2147483648
is_int (ℤ.negsuc n) = ltb n 2147483648

-- A sum of ints.
unfoldable pub int_sum : ℤ → ℤ → Outcome ℤ
int_sum a b = if is_int (plus a b) then done (plus a b) else wild

-- The position that the switch of do_lseek chooses; `none` is -EINVAL.
unfoldable pub new_pos : Whence → ℤ → ℤ → ℤ → Outcome (Option ℤ)
unfolding int_sum
new_pos Whence.seek_set offset at size = done (if is_negative offset then none else some offset)
new_pos Whence.seek_cur offset at size = do
  p ← int_sum at offset
  done (if is_negative p then none else some p)
new_pos Whence.seek_end offset at size = do
  p ← int_sum size offset
  done (if is_negative p then none else some p)
new_pos Whence.other_whence offset at size = done none

abbrev pub set_pos : ℕ → ℤ → (ℕ → File) → ℕ → File
set_pos f p files = update files f (record (files f) { f_pos = p })

module _ {W : Type 0} (k : Refs W) (ops : VnodeOps W) where
  -- do_lseek past the test of the descriptor, which has the file `f`.
  unfoldable pub seek_file : ℕ → ℤ → Whence → (ℕ → File) → W → Outcome (Reply ℤ × (ℕ → File) × W)
  unfolding new_pos
  seek_file f offset whence files w = do
    let w1 = k.fget f w
    p ← new_pos whence offset (files f).f_pos (ops.vn_len (files f).f_vnode w1)
    done (elim p [
      | none ↦ (err einval, files, k.fput f w1)
      | some q ↦ (ok q, set_pos f q files, k.fput f w1)
    ])

  unfoldable pub do_lseek :
      ℤ → ℤ → Whence → FileTable → (ℕ → File) → W → Outcome (Reply ℤ × (ℕ → File) × W)
  unfolding open_file seek_file
  do_lseek fd offset whence table files w = elim (open_file table fd) [
    | none ↦ done (err ebadf, files, w)
    | some f ↦ seek_file f offset whence files w
  ]

  -- do_read past the test of the descriptor.
  unfoldable pub read_file : ℕ → ℕ → (ℕ → File) → W → Outcome (Reply ℤ × (ℕ → File) × W)
  unfolding int_sum
  read_file f nbytes files w =
      let w1 = k.fget f w in
      let r = ops.read (files f).f_vnode (files f).f_pos nbytes w1 in
      if not (ops.has_read (files f).f_vnode)
      then done (err eisdir, files, k.fput f w1)
      else if not (files f).fmode_read
      then done (err ebadf, files, k.fput f w1)
      else if is_negative r.0
      then done (ok r.0, files, k.fput f r.1)
      else int_sum (files f).f_pos r.0 >>= λ p. done (ok r.0, set_pos f p files, k.fput f r.1)

  unfoldable pub do_read : ℤ → ℕ → FileTable → (ℕ → File) → W → Outcome (Reply ℤ × (ℕ → File) × W)
  unfolding open_file read_file
  do_read fd nbytes table files w = elim (open_file table fd) [
    | none ↦ done (err ebadf, files, w)
    | some f ↦ read_file f nbytes files w
  ]
