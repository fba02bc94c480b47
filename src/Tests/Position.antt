-- ===== src/Tests/Position.antt =====
-- Descriptor 1 has file 7, at position 4 of a vnode that is ten bytes long; a read gives five bytes. The
-- references of file 7 are counted.
use csci.Position.Write.{WriteOps}
use csci.Paging.{ok}
use csci.Prelude.Outcome.{done}
use csci.Prelude.{false, refl, ◌≡◌, ◌-◌, ◌+◌, [], some, true, ◌==◌, ℤ, if◌then◌else◌, ◌∷◌, none, ℕ}
use csci.Position.{set_pos, Whence, int_sum, new_pos, File, seek_file, VnodeOps, do_lseek}
use csci.Files.{Refs, FileTable}

abbrev refs : ℕ → ℕ → ℕ
refs w f = if f == 7 then w else 0

abbrev one_file : Refs ℕ
one_file = record {
  fget = λ f w. if f == 7 then w + 1 else w;
  fput = λ f w. if f == 7 then w - 1 else w;
}

abbrev ops : VnodeOps ℕ
ops = record { vn_len = λ v w. ℤ.pos 10; has_read = λ v. true; read = λ v p n w. (ℤ.pos 5, w) }

abbrev table : FileTable
table = none ∷ some 7 ∷ []

abbrev files : ℕ → File
files f = record { f_pos = ℤ.pos 4; f_vnode = 3; fmode_read = true }

-- Three bytes before the end.
seek_from_end :
    do_lseek one_file ops (ℤ.pos 1) (ℤ.negsuc 2) Whence.seek_end table files 1
    ≡ done (ok (ℤ.pos 7), set_pos 7 (ℤ.pos 7) files, 1)
unfolding do_lseek seek_file new_pos int_sum
seek_from_end = refl

-- The references of every file are counted. File 7 is open for writing and appending, its vnode is a device
-- with a length of ten bytes, and a write takes three bytes.
abbrev counts : Refs (ℕ → ℕ)
counts = record {
  fget = λ f w g. w g + (if g == f then 1 else 0);
  fput = λ f w g. w g - (if g == f then 1 else 0);
}

abbrev length_ten : VnodeOps (ℕ → ℕ)
length_ten = record {
  vn_len = λ v w. ℤ.pos 10;
  has_read = λ v. true;
  read = λ v p n w. (ℤ.pos 5, w);
}

abbrev appending : WriteOps (ℕ → ℕ)
appending = record {
  fmode_write = λ f. f == 7;
  fmode_append = λ f. f == 7;
  write = λ v p n w. (ℤ.pos 3, w);
  is_device = λ v. true;
  is_regular = λ v. false;
}
