-- ===== src/Files/Moved.antt =====
-- do_dup2 and do_close: the entries of the table and the references.
use csci.Vmmap.Counts.{drop}
use csci.Paging.{ebadf, err, ok, Reply}
use csci.Prelude.{
  ℤ, ltb, Bool, ◌∙◌, Bool-cases, inr, ap, inl, false, refl, ◌⊎◌, true, arith, length, none, ◌<◌,
  ◌==◌, if◌then◌else◌, some, Option, ◌≡◌, ℕ,
}
use csci.Files.{do_dup2, in_table, set_file, open_file, file_at, FileTable, do_close, move_file}
use csci.Files.Counted.{
  counting, IsCounted, uses-set_file, file_at-set_file, length-set_file, file_at-bound,
}

-- What do_close leaves behind.
abbrev pub Closes : FileTable → ℤ → Reply ℕ → FileTable → Type 0
Closes files fd (ok x) files' =
    (n : ℕ) × (file : ℕ) × (fd ≡ ℤ.pos n)
    × (file_at files n ≡ some file)
    × ((m : ℕ) → file_at files' m ≡ (if m == n then none else file_at files m))
Closes files fd (err e) files' = (e ≡ ebadf) × (files' ≡ files) × (open_file files fd ≡ none)

close_open :
    (n file : ℕ) (files : FileTable) (w : ℕ → ℕ)
    → file_at files n ≡ some file
    → IsCounted files w
    → IsCounted (set_file n none files) (drop file w)
close_open n file files w e c f =
    ground (arith, c f, uses-set_file f n none files (file_at-bound n file files e), e)

-- In a table where each file has as many references as descriptors, do_close frees a descriptor that is
-- open and changes no other, or returns -EBADF and changes nothing. The references still are the
-- descriptors.
pub do_close-Closes :
    (fd : ℤ) (files : FileTable) (w : ℕ → ℕ)
    → IsCounted files w
    → let out = do_close counting fd files w in Closes files fd out.0 out.1 × IsCounted out.1 out.2
unfolding do_close open_file
do_close-Closes (ℤ.negsuc n) files w c = ((refl, refl, refl), c)
do_close-Closes (ℤ.pos n) files w c = opened (file_at files n) refl
  where
    opened :
        (o : Option ℕ)
        → file_at files n ≡ o
        → Closes files
            (ℤ.pos n)
            (do_close counting (ℤ.pos n) files w).0
            (do_close counting (ℤ.pos n) files w).1
          × IsCounted
              (do_close counting (ℤ.pos n) files w).1
              (do_close counting (ℤ.pos n) files w).2
    opened none e = rw (e, do_close) ((refl, refl, e), c)
    opened (some file) e =
        rw (e, do_close)
          (
            (n, file, refl, e, λ m. file_at-set_file n m none files (file_at-bound n file files e)),
            close_open n file files w e c,
          )

-- What do_dup2 leaves behind.
abbrev pub Moves : FileTable → ℤ → ℤ → Reply ℕ → FileTable → Type 0
Moves files ofd nfd (ok n) files' =
    (file : ℕ) × (open_file files ofd ≡ some file)
    × (nfd ≡ ℤ.pos n)
    × ((m : ℕ) → file_at files' m ≡ (if m == n then some file else file_at files m))
Moves files ofd nfd (err e) files' =
    (e ≡ ebadf) × (files' ≡ files) × ((open_file files ofd ≡ none) ⊎ (in_table files nfd ≡ false))

-- What move_file leaves behind.
abbrev Moved : ℕ → ℕ → FileTable → Reply ℕ × FileTable × (ℕ → ℕ) → Type 0
Moved file n files out =
    (out.0 ≡ ok n)
    × ((m : ℕ) → file_at out.1 m ≡ (if m == n then some file else file_at files m))
    × IsCounted out.1 out.2

move_file-Moved :
    (file i n : ℕ) (files : FileTable) (w : ℕ → ℕ)
    → file_at files i ≡ some file
    → n < length files
    → IsCounted files w
    → Moved file n files (move_file counting file i n files w)
unfolding move_file do_close open_file
move_file-Moved file i n files w at_i inside c = go (file_at files n) refl (Bool-cases (n == i))
  where
    go :
        (o : Option ℕ)
        → file_at files n ≡ o
        → ((n == i) ≡ true) ⊎ ((n == i) ≡ false)
        → Moved file n files (move_file counting file i n files w)
    go none e (inl same) = absurd (ground (arith, ap (file_at files)))
    go none e (inr other) =
        rw (e, other, move_file)
          (
            refl,
            (λ m. file_at-set_file n m (some file) files inside),
            λ f. ground (arith, c f, uses-set_file f n (some file) files inside, e),
          )
    go (some g) e (inl same) =
        let n_is_i : n ≡ i = ground arith in
        let here : file_at files n ≡ some file = ap (file_at files) n_is_i ∙ at_i in
        rw (e, same, move_file)
          (
            refl,
            (λ m. file_at-set_file n m (some file) files inside),
            λ f. ground (arith, c f, uses-set_file f n (some file) files inside, here),
          )
    go (some g) e (inr other) =
        let left : FileTable = set_file n none files in
        let inside' : n < length left = rw (length-set_file n none files) inside in
        rw (e, other, move_file)
          (
            refl,
            (λ m. ground (
              arith,
              file_at-set_file n m (some file) left inside',
              file_at-set_file n m none files inside,
            )),
            λ f. ground (
              arith,
              c f,
              uses-set_file f n none files inside,
              uses-set_file f n (some file) left inside',
              e,
              file_at-set_file n n none files inside,
            ),
          )

Moves-Moved :
    (file i n : ℕ) (files : FileTable) (out : Reply ℕ × FileTable × (ℕ → ℕ))
    → file_at files i ≡ some file
    → Moved file n files out
    → Moves files (ℤ.pos i) (ℤ.pos n) out.0 out.1 × IsCounted out.1 out.2
unfolding open_file
Moves-Moved file i n files out e (r, entries, counted) = rw r ((file, e, refl, entries), counted)

-- In a table where each file has as many references as descriptors, do_dup2 makes the second
-- descriptor one of the file of the first and changes no other; a file that was open there loses a
-- reference. It returns -EBADF, and changes nothing, where the first descriptor is not open or the
-- second is not in the table. The references still are the descriptors.
pub do_dup2-Moves :
    (ofd nfd : ℤ) (files : FileTable) (w : ℕ → ℕ)
    → IsCounted files w
    → let out = do_dup2 counting ofd nfd files w in
      Moves files ofd nfd out.0 out.1 × IsCounted out.1 out.2
unfolding do_dup2 open_file
do_dup2-Moves (ℤ.negsuc i) nfd files w c = ((refl, refl, inl refl), c)
do_dup2-Moves (ℤ.pos i) (ℤ.negsuc n) files w c = opened (file_at files i) refl
  where
    opened :
        (o : Option ℕ)
        → file_at files i ≡ o
        → Moves files
            (ℤ.pos i)
            (ℤ.negsuc n)
            (do_dup2 counting (ℤ.pos i) (ℤ.negsuc n) files w).0
            (do_dup2 counting (ℤ.pos i) (ℤ.negsuc n) files w).1
          × IsCounted
              (do_dup2 counting (ℤ.pos i) (ℤ.negsuc n) files w).1
              (do_dup2 counting (ℤ.pos i) (ℤ.negsuc n) files w).2
    opened none e = rw (e, do_dup2) ((refl, refl, inl e), c)
    opened (some file) e = rw (e, do_dup2) ((refl, refl, inr refl), c)
do_dup2-Moves (ℤ.pos i) (ℤ.pos n) files w c =
    opened (file_at files i) refl (ltb n (length files)) refl
  where
    opened :
        (o : Option ℕ)
        → file_at files i ≡ o
        → (b : Bool) → ltb n (length files) ≡ b
        → Moves files
            (ℤ.pos i)
            (ℤ.pos n)
            (do_dup2 counting (ℤ.pos i) (ℤ.pos n) files w).0
            (do_dup2 counting (ℤ.pos i) (ℤ.pos n) files w).1
          × IsCounted
              (do_dup2 counting (ℤ.pos i) (ℤ.pos n) files w).1
              (do_dup2 counting (ℤ.pos i) (ℤ.pos n) files w).2
    opened none e b t = rw (e, do_dup2) ((refl, refl, inl e), c)
    opened (some file) e false t = rw (e, t, do_dup2) ((refl, refl, inr t), c)
    opened (some file) e true t =
        rw (e, t, do_dup2)
          (Moves-Moved file i n files (move_file counting file i n files w) e
            (move_file-Moved file i n files w e (ground arith) c))
