-- ===== src/Files/Counted.antt =====
-- The references of a file and the descriptors that have it.
use csci.Prelude.{
  ℤ, inl, ◌⊎◌, inr, ◌≢◌, ◌∙◌, zero, refl, [], arith, ◌==◌, if◌then◌else◌, ◌+◌, suc, some, ◌≡◌, ◌∷◌,
  ◌<◌, length, none, Option, ℕ,
}
use mathlib.Core.Path.{subst}
use csci.Vmmap.Counts.{drop, bump}
use csci.Paging.{emfile, ebadf, err, ok, Reply}
use csci.Files.{open_file, Refs, do_dup, get_empty_fd, FileTable, set_file, file_at}

-- 1 if the entry has the file `f`.
abbrev one : ℕ → Option ℕ → ℕ
one f o = elim o [ none ↦ 0 | some x ↦ if x == f then 1 else 0 ]

-- How many descriptors have the file `f`.
abbrev pub uses : ℕ → FileTable → ℕ
uses f [] = 0
uses f (o ∷ xs) = one f o + uses f xs

pub uses-set_file :
    (f n : ℕ) (o : Option ℕ) (xs : FileTable)
    → n < length xs
    → uses f (set_file n o xs) + one f (file_at xs n) ≡ uses f xs + one f o
unfolding set_file file_at
uses-set_file f n o [] h = absurd (omega arith)
uses-set_file f zero o (x ∷ xs) h = omega arith
uses-set_file f (suc n) o (x ∷ xs) h = omega (arith, uses-set_file f n o xs (omega arith))

pub file_at-bound : (n f : ℕ) (xs : FileTable) → file_at xs n ≡ some f → n < length xs
unfolding file_at
file_at-bound n f [] e = cc
file_at-bound zero f (x ∷ xs) e = omega arith
file_at-bound (suc n) f (x ∷ xs) e = omega (arith, file_at-bound n f xs e)

pub file_at-set_file :
    (n m : ℕ) (o : Option ℕ) (xs : FileTable)
    → n < length xs
    → file_at (set_file n o xs) m ≡ (if m == n then o else file_at xs m)
unfolding set_file file_at
file_at-set_file n m o [] h = absurd (omega arith)
file_at-set_file zero zero o (x ∷ xs) h = refl
file_at-set_file zero (suc m) o (x ∷ xs) h = ground arith
file_at-set_file (suc n) zero o (x ∷ xs) h = ground arith
file_at-set_file (suc n) (suc m) o (x ∷ xs) h =
    file_at-set_file n m o xs (omega arith) ∙ ground arith

pub length-set_file : (n : ℕ) (o : Option ℕ) (xs : FileTable) → length (set_file n o xs) ≡ length xs
unfolding set_file
length-set_file n o [] = refl
length-set_file zero o (x ∷ xs) = refl
length-set_file (suc n) o (x ∷ xs) = rw (length-set_file n o xs)

-- A world that keeps the number of references of each file.
abbrev pub counting : Refs (ℕ → ℕ)
counting = record { fget = bump; fput = drop }

-- Each file has as many references as descriptors.
abbrev pub IsCounted : FileTable → (ℕ → ℕ) → Type 0
IsCounted files w = (f : ℕ) → w f ≡ uses f files

-- What get_empty_fd gives: the first free descriptor, or none in a table that is full.
abbrev pub FirstFree : FileTable → Option ℕ → Type 0
FirstFree xs none = (m : ℕ) → m < length xs → file_at xs m ≢ none
FirstFree xs (some n) =
    (n < length xs) × (file_at xs n ≡ none) × ((m : ℕ) → m < n → file_at xs m ≢ none)

used_cons :
    (f n : ℕ) (xs : FileTable)
    → ((m : ℕ) → m < n → file_at xs m ≢ none)
    → (m : ℕ) → m < n + 1
    → file_at (some f ∷ xs) m ≢ none
unfolding file_at
used_cons f n xs g zero h = λ e. cc
used_cons f n xs g (suc m) h = g m (omega arith)

FirstFree-cons :
    (f : ℕ) (xs : FileTable) (o : Option ℕ)
    → FirstFree xs o
    → FirstFree (some f ∷ xs) (mathlib.Core.Option.map suc o)
unfolding file_at
FirstFree-cons f xs none g = λ m h. used_cons f (length xs) xs g m (omega arith)
FirstFree-cons f xs (some n) g =
    (omega (arith, g.0), g.1, λ m h. used_cons f n xs g.2 m (omega arith))

get_empty_fd-FirstFree : (xs : FileTable) → FirstFree xs (get_empty_fd xs)
unfolding get_empty_fd file_at
get_empty_fd-FirstFree [] = λ m h. absurd (omega arith)
get_empty_fd-FirstFree (none ∷ xs) = (omega arith, refl, λ m h. absurd (omega arith))
get_empty_fd-FirstFree (some f ∷ xs) =
    FirstFree-cons f xs (get_empty_fd xs) (get_empty_fd-FirstFree xs)

-- What do_dup leaves behind.
abbrev pub Dups : FileTable → ℤ → Reply ℕ → FileTable → Type 0
Dups files fd (ok n) files' =
    (file : ℕ) × (open_file files fd ≡ some file)
    × FirstFree files (some n)
    × ((m : ℕ) → file_at files' m ≡ (if m == n then some file else file_at files m))
Dups files fd (err e) files' =
    (files' ≡ files)
    × (((e ≡ ebadf) × (open_file files fd ≡ none)) ⊎ ((e ≡ emfile) × FirstFree files none))

-- In a table where each file has as many references as descriptors, do_dup gives a file that is open the
-- lowest free descriptor besides the one that it has, and changes no other. It returns -EBADF for a
-- descriptor that is not open and -EMFILE in a full table, and then changes nothing. In each case the
-- references still are the descriptors.
pub do_dup-Dups :
    (fd : ℤ) (files : FileTable) (w : ℕ → ℕ)
    → IsCounted files w
    → let out = do_dup counting fd files w in Dups files fd out.0 out.1 × IsCounted out.1 out.2
unfolding do_dup
do_dup-Dups fd files w c = opened (open_file files fd) refl
  where
    Goal : Type 0
    Goal =
        Dups files fd (do_dup counting fd files w).0 (do_dup counting fd files w).1
        × IsCounted (do_dup counting fd files w).1 (do_dup counting fd files w).2

    found :
        (file : ℕ) → open_file files fd ≡ some file → (o : Option ℕ) → get_empty_fd files ≡ o → Goal
    found file e none n =
        rw (e, n, do_dup)
          (
            (refl, inr (refl, subst (FirstFree files) n (get_empty_fd-FirstFree files))),
            λ f. ground (arith, c f),
          )
    found file e (some nfd) n =
        let first : FirstFree files (some nfd) =
          subst (FirstFree files) n (get_empty_fd-FirstFree files) in
        rw (e, n, do_dup)
          (
            (file, e, first, λ m. file_at-set_file nfd m (some file) files first.0),
            λ f. ground (arith, c f, uses-set_file f nfd (some file) files first.0, first.1),
          )

    opened : (o : Option ℕ) → open_file files fd ≡ o → Goal
    opened none e = rw (e, do_dup) ((refl, inl (refl, e)), c)
    opened (some file) e = found file e (get_empty_fd files) refl
