-- ===== src/Tests/Ledger.antt =====
-- A transaction file.
use csci.Ledger.{
  bubble_pass, bubble_rounds, Transaction, first_non_space, check_amount, bubble_sort, check_desc,
}
use csci.Ledger.Format.Columns.{table_line-Columns, Columns}
use csci.Ledger.Format.{text_in, table_line, write_digits, transfer_format}
use csci.Ledger.Format.Reads.{transfer_format-Reads, Reads}
use csci.Ledger.Amount.{check_amount-accepts, Parts}
use csci.Prelude.Outcome.{wild, done}
use csci.Prelude.{arith, zero, suc, ◌-◌, ℤ, refl, ◌+◌, ◌↔◌, ◌*◌, some, [], ◌∷◌, ◌≡◌, ℕ, Text}
use csci.Ledger.Sort.{bubble_sort-Sorts, Sorts}

abbrev value_from : ℕ → Text → ℕ
value_from n [] = n
value_from n (c ∷ cs) = value_from (n * 10 + (c - b'0')) cs

abbrev atoll : Text → ℕ
atoll = value_from 0

-- "12.50"
abbrev amount : Text
amount = b'1' ∷ b'2' ∷ b'.' ∷ b'5' ∷ b'0' ∷ []

check_amount-accepts_example : (check_amount atoll amount ≡ some 1250) ↔ Parts atoll amount 1250
check_amount-accepts_example = check_amount-accepts atoll amount 1250

abbrev at : ℕ → Transaction
at t = record { desc = []; time_str = []; timestamp = t; amount_num = ℤ.pos t; line_num = t }

bubble_sort-Sorts_example : Sorts (at 3 ∷ at 1 ∷ at 2 ∷ []) (bubble_sort (at 3 ∷ at 1 ∷ at 2 ∷ []))
bubble_sort-Sorts_example = bubble_sort-Sorts (at 3 ∷ at 1 ∷ at 2 ∷ [])

three_sorted : bubble_sort (at 3 ∷ at 1 ∷ at 2 ∷ []) ≡ some (at 1 ∷ at 2 ∷ at 3 ∷ [])
unfolding bubble_sort bubble_rounds bubble_pass
three_sorted = refl

-- A description of spaces only is accepted as it is.
spaces_accepted : check_desc (b' ' ∷ b' ' ∷ []) ≡ done (some (b' ' ∷ b' ' ∷ []))
unfolding check_desc first_non_space
spaces_accepted = refl

abbrev letters : ℕ → Text
letters zero = []
letters (suc n) = b'a' ∷ letters n

-- One of 25 characters is copied without a final 0.
long_overruns : check_desc (letters 25) ≡ wild
unfolding check_desc first_non_space
long_overruns = refl

-- -1234567.89
transfer_format-Reads_example : Reads (ℤ.negsuc 123456788) (transfer_format (ℤ.negsuc 123456788))
transfer_format-Reads_example = transfer_format-Reads (ℤ.negsuc 123456788) (omega arith)

table_line-Columns_example : Columns (at 3) (ℤ.pos 3) (table_line (at 3) (ℤ.pos 3))
table_line-Columns_example = table_line-Columns (at 3) (ℤ.pos 3)

one_cent :
    text_in 16 0 (transfer_format (ℤ.pos 1))
    ≡ b' ' ∷ b' ' ∷ b' ' ∷ b' ' ∷ b' ' ∷ b' ' ∷ b' ' ∷ b' ' ∷ b' ' ∷ b'0' ∷ b'.' ∷ b'0' ∷ b'1'
      ∷ b' ' ∷ []
unfolding transfer_format write_digits
one_cent = refl
