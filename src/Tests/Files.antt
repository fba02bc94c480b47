-- ===== src/Tests/Files.antt =====
-- A table of four descriptors, two of which have file 7.
use csci.Paging.{ok}
use csci.Files.{get_empty_fd, do_dup2, FileTable, do_close, do_dup}
use csci.Prelude.{ℤ, refl, [], none, ◌==◌, ◌≡◌, ◌∷◌, if◌then◌else◌, some, arith, ℕ}
use csci.Files.Counted.{do_dup-Dups, Dups, IsCounted, counting}
use csci.Files.Moved.{do_close-Closes, Closes, do_dup2-Moves, Moves}

abbrev table : FileTable
table = some 7 ∷ none ∷ some 9 ∷ some 7 ∷ []

abbrev refs : ℕ → ℕ
refs f = if f == 7 then 2 else if f == 9 then 1 else 0

table-IsCounted : IsCounted table refs
table-IsCounted f = ground arith

do_dup-Dups_example :
    let out = do_dup counting (ℤ.pos 2) table refs in
    Dups table (ℤ.pos 2) out.0 out.1 × IsCounted out.1 out.2
do_dup-Dups_example = do_dup-Dups (ℤ.pos 2) table refs table-IsCounted

do_close-Closes_example :
    let out = do_close counting (ℤ.pos 3) table refs in
    Closes table (ℤ.pos 3) out.0 out.1 × IsCounted out.1 out.2
do_close-Closes_example = do_close-Closes (ℤ.pos 3) table refs table-IsCounted

do_dup2-Moves_example :
    let out = do_dup2 counting (ℤ.pos 0) (ℤ.pos 2) table refs in
    Moves table (ℤ.pos 0) (ℤ.pos 2) out.0 out.1 × IsCounted out.1 out.2
do_dup2-Moves_example = do_dup2-Moves (ℤ.pos 0) (ℤ.pos 2) table refs table-IsCounted

dup_takes_lowest : (do_dup counting (ℤ.pos 2) table refs).0 ≡ ok 1
unfolding do_dup get_empty_fd
dup_takes_lowest = refl
