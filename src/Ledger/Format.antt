-- ===== src/Ledger/Format.antt =====
-- transferFormat and printTable. An array of characters is a function of the index.
use csci.Ledger.{Transaction}
use csci.Prelude.{
  is_negative, plus, ◌∷◌, [], Text, List, neg, ltb, ◌&&◌, ◌/◌, ◌||◌, zero, ◌%◌, abs, true, ◌-◌,
  false, ◌+◌, leb, ◌==◌, if◌then◌else◌, Bool, suc, ℕ, ℤ,
}
pub mod Reads
pub mod Columns

abbrev pub Buffer : Type 0
Buffer = ℕ → ℕ

-- temp[i] = c
abbrev pub set_char : ℕ → ℕ → Buffer → Buffer
set_char i c t j = if j == i then c else t j

-- A loop that writes `c` at `n` places, the first of them at the index `i`, towards the left.
abbrev pub fill_down : ℕ → ℕ → ℕ → Buffer → Buffer
fill_down zero i c t = t
fill_down (suc n) i c t = fill_down n (i - 1) c (set_char i c t)

-- The places to the left of which a mark goes.
abbrev pub before_mark : ℕ → Bool
before_mark index = index == 11 || (index == 7 || index == 3)

-- The loop over the digits. It stops where no digits are left; the result has the index and the text.
unfoldable pub write_digits : ℕ → ℕ → ℕ → Buffer → ℕ × Buffer
write_digits zero money index t = (index, t)
write_digits (suc fuel) money index t =
    let digit = set_char index (b'0' + money % 10) t in
    let left = money / 10 in
    let marked = before_mark index && ltb 0 left in
    let mark = if index == 11 then b'.' else b',' in
    let rest =
      write_digits fuel left (if marked then index - 2 else index - 1)
        (if marked then set_char (index - 1) mark digit else digit) in
    if ltb 0 money && leb 1 index then rest else (index, t)

-- What follows the loop: zeros down to the index 9, the dot, and spaces down to the index 1.
abbrev pub pad : ℕ × Buffer → Buffer
pad o =
    let index = if leb 9 o.0 then 8 else o.0 in
    fill_down index index b' ' (set_char 10 b'.' (fill_down (o.0 - 8) o.0 b'0' o.1))

unfoldable pub transfer_format : ℤ → Buffer
unfolding write_digits
transfer_format money =
    let ends =
      set_char 13 (if is_negative money then b')' else b' ')
        (set_char 0 (if is_negative money then b'(' else b' ') (λ j. 0)) in
    if leb 1000000000 (abs money)
    then set_char 6 b',' (set_char 2 b',' (set_char 10 b'.' (fill_down 12 12 b'?' ends)))
    else pad (write_digits 12 (abs money) 12 ends)

-- A loop that copies a text to the indices from `a` up to, but not to, `stop`. `n` is the room.
abbrev pub copy_from : ℕ → ℕ → Text → Buffer → Buffer
copy_from zero a cs t = t
copy_from (suc n) a [] t = t
copy_from (suc n) a (c ∷ cs) t = copy_from n (suc a) cs (set_char a c t)

-- for (a = from, b = 0; a < stop && b < strlen(cs); a++, b++)
unfoldable pub write_field : ℕ → ℕ → Text → Buffer → Buffer
write_field from stop cs t = copy_from (stop - from) from cs t

-- The text in a buffer, up to the first 0 or `n` characters.
abbrev pub text_in : ℕ → ℕ → Buffer → Text
text_in zero i t = []
text_in (suc n) i t = let rest = text_in n (suc i) t in if t i == 0 then [] else t i ∷ rest

abbrev pub is_border : ℕ → Bool
is_border a = (a == 0 || a == 18) || (a == 45 || (a == 62 || a == 79))

-- A line of printTable, before the fields.
abbrev pub empty_line : Buffer
empty_line a = if is_border a then b'|' else if ltb a 80 then b' ' else 0

-- dashLine
abbrev pub dash_line : Buffer
dash_line a = if is_border a then b'+' else if ltb a 80 then b'-' else 0

-- The line of a transaction, with the balance after it.
unfoldable pub table_line : Transaction → ℤ → Buffer
unfolding write_field transfer_format
table_line tr balance = write_field 64 78 (text_in 16 0 (transfer_format balance)) (
    write_field 47 61 (text_in 16 0 (transfer_format tr.amount_num))
      (write_field 20 44 tr.desc (write_field 2 17 tr.time_str empty_line)))

-- The lines between the second and the last dashLine.
unfoldable pub table_lines : ℤ → List Transaction → List Buffer
unfolding table_line
table_lines balance [] = []
table_lines balance (tr ∷ rest) =
    let total = plus balance tr.amount_num in table_line tr total ∷ table_lines total rest
