-- ===== src/Files.antt =====
-- The descriptor table of a process: get_empty_fd of Homework/Kernel/fs/open.c, and do_close,
-- do_dup and do_dup2 of Homework/Kernel/fs/vfs_syscall.c. A file_t is a number.
use csci.Paging.{ok, emfile, ebadf, err, Reply}
use csci.Prelude.{
  ℤ, ◌==◌, zero, length, [], ltb, suc, some, ◌∷◌, false, if◌then◌else◌, none, Bool, List, Option, ℕ,
}
pub mod Counted
pub mod Moved
use mathlib.Core.Option

-- p_files has NFILES entries; NULL is `none`.
abbrev pub FileTable : Type 0
FileTable = List (Option ℕ)

-- What fget and fput of fs/file.c do to a file that is there: one reference more, one reference less.
pub record Refs (W : Type 0) : Type 0 where
  pub fget : ℕ → W → W
  pub fput : ℕ → W → W

-- The file at a descriptor of the table; `none` beyond its end.
unfoldable pub file_at : FileTable → ℕ → Option ℕ
file_at [] n = none
file_at (x ∷ xs) zero = x
file_at (x ∷ xs) (suc n) = file_at xs n

-- `p_files[n] = o`, for a descriptor of the table.
unfoldable pub set_file : ℕ → Option ℕ → FileTable → FileTable
set_file n o [] = []
set_file zero o (x ∷ xs) = o ∷ xs
set_file (suc n) o (x ∷ xs) = x ∷ set_file n o xs

-- The first tests of do_close and do_dup: the file of a descriptor, if it is open.
unfoldable pub open_file : FileTable → ℤ → Option ℕ
unfolding file_at
open_file files (ℤ.negsuc n) = none
open_file files (ℤ.pos n) = file_at files n

-- `none` is -EMFILE.
unfoldable pub get_empty_fd : FileTable → Option ℕ
get_empty_fd [] = none
get_empty_fd (none ∷ xs) = some 0
get_empty_fd (some f ∷ xs) = Option.map suc (get_empty_fd xs)

-- Whether an int is a descriptor of the table.
abbrev pub in_table : FileTable → ℤ → Bool
in_table files (ℤ.negsuc n) = false
in_table files (ℤ.pos n) = ltb n (length files)

abbrev pub index : ℤ → ℕ
index (ℤ.pos n) = n
index (ℤ.negsuc n) = 0

module _ {W : Type 0} (k : Refs W) where
  unfoldable pub do_close : ℤ → FileTable → W → Reply ℕ × FileTable × W
  unfolding open_file set_file
  do_close fd files w = elim (open_file files fd) [
    | none ↦ (err ebadf, files, w)
    | some file ↦ (ok 0, set_file (index fd) none files, k.fput file w)
  ]

  unfoldable pub do_dup : ℤ → FileTable → W → Reply ℕ × FileTable × W
  unfolding open_file set_file get_empty_fd
  do_dup fd files w = elim (open_file files fd) [
    | none ↦ (err ebadf, files, w)
    | some file ↦
        let w' = k.fget file w in
        elim (get_empty_fd files) [
          | none ↦ (err emfile, files, k.fput file w')
          | some nfd ↦ (ok nfd, set_file nfd (some file) files, w')
        ]
  ]

  -- do_dup2 past the tests of its arguments: `file` is open at `ofd`, and `nfd` is in the table.
  unfoldable pub move_file : ℕ → ℕ → ℕ → FileTable → W → Reply ℕ × FileTable × W
  unfolding do_close set_file file_at
  move_file file ofd nfd files w =
      let w1 = k.fget file w in
      let closed = do_close (ℤ.pos nfd) files w1 in
      let left : FileTable × W = elim (file_at files nfd) [
        | none ↦ (files, w1)
        | some other ↦ if nfd == ofd then (files, w1) else (closed.1, closed.2)
      ] in
      (ok nfd, set_file nfd (some file) left.0, if nfd == ofd then k.fput file left.1 else left.1)

  unfoldable pub do_dup2 : ℤ → ℤ → FileTable → W → Reply ℕ × FileTable × W
  unfolding open_file move_file
  do_dup2 ofd nfd files w = elim (open_file files ofd) [
    | none ↦ (err ebadf, files, w)
    | some file ↦
        if in_table files nfd
        then move_file file (index ofd) (index nfd) files w
        else (err ebadf, files, w)
  ]
