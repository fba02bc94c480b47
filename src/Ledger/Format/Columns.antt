-- ===== src/Ledger/Format/Columns.antt =====
-- printTable: the columns of its lines.
use csci.Ledger.Format.{
  table_line, empty_line, is_border, transfer_format, text_in, write_field, set_char, copy_from,
  Buffer,
}
use csci.Ledger.{Transaction}
use csci.Ledger.Format.Reads.{transfer_format-Reads, Filled}
use csci.Prelude.{
  ◌||◌, Bool, true, sym, ap, abs, false, inr, leb, ◌-◌, ◌==◌, ℤ, Bool-cases, inl, [], refl, zero,
  ◌∙◌, arith, ◌∷◌, suc, ◌≡◌, ◌≤◌, ◌+◌, ◌⊎◌, ◌<◌, Text, ℕ,
}

-- A copy changes no character in front of it or behind its end.
copy_from-outside :
    (n a : ℕ) (cs : Text) (t : Buffer) (j : ℕ) → (j < a) ⊎ (a + n ≤ j) → copy_from n a cs t j ≡ t j
copy_from-outside zero a cs t j h = refl
copy_from-outside (suc n) a [] t j h = refl
copy_from-outside (suc n) a (c ∷ cs) t j h =
    copy_from-outside n (suc a) cs (set_char a c t) j (ground (arith, h)) ∙ ground (arith, h)

-- The character of a text at an index, or another behind its end.
abbrev pub char_or : ℕ → Text → ℕ → ℕ
char_or d [] j = d
char_or d (c ∷ cs) zero = c
char_or d (c ∷ cs) (suc j) = char_or d cs j

-- A copy has the characters of the text, and what was there behind the text.
copy_from-inside :
    (n a : ℕ) (cs : Text) (t : Buffer) (j : ℕ)
    → j < n
    → copy_from n a cs t (a + j) ≡ char_or (t (a + j)) cs j
copy_from-inside zero a cs t j h = absurd (omega (arith, h))
copy_from-inside (suc n) a [] t j h = refl
copy_from-inside (suc n) a (c ∷ cs) t zero h =
    copy_from-outside n (suc a) cs (set_char a c t) (a + 0) (inl (omega arith)) ∙ ground arith
copy_from-inside (suc n) a (c ∷ cs) t (suc j) h =
    let shift : a + suc j ≡ suc a + j = omega arith in
    let same : set_char a c t (suc a + j) ≡ t (suc a + j) = ground arith in
    ap (copy_from n (suc a) cs (set_char a c t)) shift
    ∙ copy_from-inside n (suc a) cs (set_char a c t) j (omega (arith, h))
    ∙ ap (λ x. char_or x cs j) (same ∙ ap t (sym shift))

write_field-outside :
    (from stop : ℕ) (cs : Text) (t : Buffer) (j : ℕ)
    → from ≤ stop
    → (j < from) ⊎ (stop ≤ j)
    → write_field from stop cs t j ≡ t j
unfolding write_field
write_field-outside from stop cs t j le h =
    copy_from-outside (stop - from) from cs t j (ground (arith, h, le))

write_field-inside :
    (from stop : ℕ) (cs : Text) (t : Buffer) (j : ℕ)
    → j < stop - from
    → write_field from stop cs t (from + j) ≡ char_or (t (from + j)) cs j
unfolding write_field
write_field-inside from stop cs t j h = copy_from-inside (stop - from) from cs t j h

-- A text is there up to the first 0.
text_in-char :
    (n i d : ℕ) (t : Buffer) (j : ℕ)
    → j < n
    → ((k : ℕ) → k ≤ j → 0 < t (i + k))
    → char_or d (text_in n i t) j ≡ t (i + j)
text_in-char zero i d t j lt h = absurd (omega (arith, lt))
text_in-char (suc n) i d t zero lt h =
    let here : 0 < t (i + 0) = h 0 (omega arith) in
    let at : i + 0 ≡ i = omega arith in
    let first : (t i == 0) ≡ false = ground (arith, here, at) in rw (at, first) refl
text_in-char (suc n) i d t (suc j) lt h =
    let here : 0 < t (i + 0) = h 0 (omega arith) in
    let at : i + 0 ≡ i = omega arith in
    let first : (t i == 0) ≡ false = ground (arith, here, at) in
    let shift : i + suc j ≡ suc i + j = omega arith in
    rw (first, shift)
      (text_in-char n (suc i) d t j (omega (arith, lt)) (λ k le.
        let e : suc i + k ≡ i + suc k = omega arith in rw e (h (suc k) (omega (arith, le)))))

Filled-at : (n : ℕ) (t : Buffer) (j : ℕ) → Filled n t → j < n → 0 < t j
Filled-at zero t j f lt = absurd (omega (arith, lt))
Filled-at (suc n) t j f lt = elim (Bool-cases (j == n)) [
  | inl e ↦ let same : j ≡ n = ground (arith, e) in rw same f.0
  | inr e ↦ Filled-at n t j f.1 (ground (arith, e, lt))
]

transfer_format-Filled : (money : ℤ) → Filled 14 (transfer_format money)
unfolding transfer_format
transfer_format-Filled money = elim (Bool-cases (leb 1000000000 (abs money))) [
  | inl large ↦ rw large (ground arith)
  | inr small ↦
      let (value, dot, filled, ended) = transfer_format-Reads money (ground (arith, small)) in
      filled
]

-- The characters between a border and a field.
abbrev pub is_gap : ℕ → Bool
is_gap j =
    (j == 1 || j == 17) || ((j == 19 || j == 44) || ((j == 46 || j == 61) || (j == 63 || j == 78)))

-- What printTable shows of a transaction: the borders, the spaces beside them, and in each column the
-- characters of its text, with spaces behind it.
pub record Columns (tr : Transaction) (balance : ℤ) (out : Buffer) : Type 0 where
  pub borders : (j : ℕ) → is_border j ≡ true → out j ≡ b'|'
  pub gaps : (j : ℕ) → is_gap j ≡ true → out j ≡ b' '
  pub ends : (j : ℕ) → 80 ≤ j → out j ≡ 0
  pub date : (j : ℕ) → j < 15 → out (2 + j) ≡ char_or b' ' tr.time_str j
  pub description : (j : ℕ) → j < 24 → out (20 + j) ≡ char_or b' ' tr.desc j
  pub amount : (j : ℕ) → j < 14 → out (47 + j) ≡ transfer_format tr.amount_num j
  pub balance_after : (j : ℕ) → j < 14 → out (64 + j) ≡ transfer_format balance j

amount_text :
    (money : ℤ) (d j : ℕ)
    → j < 14
    → char_or d (text_in 16 0 (transfer_format money)) j ≡ transfer_format money j
amount_text money d j lt =
    let zero_plus : (k : ℕ) → 0 + k ≡ k = λ k. omega arith in
    text_in-char 16 0 d (transfer_format money) j (omega (arith, lt)) (λ k le. rw (zero_plus k) (
      Filled-at 14 (transfer_format money) k (transfer_format-Filled money)
        (omega (arith, lt, le))))
    ∙ ap (transfer_format money) (zero_plus j)

-- Outside of the four fields.
abbrev Outside : ℕ → Type 0
Outside j =
    ((j < 2) ⊎ (17 ≤ j)) × ((j < 20) ⊎ (44 ≤ j)) × ((j < 47) ⊎ (61 ≤ j)) × ((j < 64) ⊎ (78 ≤ j))

module _ (tr : Transaction) (balance : ℤ) where
  abbrev line1 : Buffer
  line1 = write_field 2 17 tr.time_str empty_line

  abbrev line2 : Buffer
  line2 = write_field 20 44 tr.desc line1

  abbrev line3 : Buffer
  line3 = write_field 47 61 (text_in 16 0 (transfer_format tr.amount_num)) line2

  table_line-Outside : (j : ℕ) → Outside j → table_line tr balance j ≡ empty_line j
  unfolding table_line
  table_line-Outside j (a, b, c, d) =
      write_field-outside 64 78 (text_in 16 0 (transfer_format balance)) line3 j (omega arith) d
      ∙ write_field-outside 47 61 (text_in 16 0 (transfer_format tr.amount_num)) line2 j
          (omega arith) c
      ∙ write_field-outside 20 44 tr.desc line1 j (omega arith) b
      ∙ write_field-outside 2 17 tr.time_str empty_line j (omega arith) a

  -- The amounts stand behind the other two fields.
  behind : (j : ℕ) → j < 47 → table_line tr balance j ≡ line2 j
  unfolding table_line
  behind j lt =
      write_field-outside 64 78 (text_in 16 0 (transfer_format balance)) line3 j (omega arith)
        (inl (omega (arith, lt)))
      ∙ write_field-outside 47 61 (text_in 16 0 (transfer_format tr.amount_num)) line2 j
          (omega arith) (inl lt)

  -- A line of printTable has its borders at the columns of the lines of dashes and spaces beside the fields, has
  -- no characters from the 80th on, and shows the date and the description of the transaction, the description cut after 24 characters, its
  -- amount and the balance.
  pub table_line-Columns : Columns tr balance (table_line tr balance)
  unfolding table_line
  table_line-Columns = record {
    borders = λ j e. table_line-Outside j (ground (arith, e)) ∙ rw e refl;
    gaps = λ j e. table_line-Outside j (ground (arith, e)) ∙ ground (arith, e);
    ends = λ j e. table_line-Outside j (ground (arith, e)) ∙ ground (arith, e);
    date = λ j e.
        behind (2 + j) (omega (arith, e))
        ∙ write_field-outside 20 44 tr.desc line1 (2 + j) (omega arith) (inl (omega (arith, e)))
        ∙ write_field-inside 2 17 tr.time_str empty_line j e
        ∙ ap (λ d. char_or d tr.time_str j) (ground (arith, e));
    description = λ j e.
        behind (20 + j) (omega (arith, e))
        ∙ write_field-inside 20 44 tr.desc line1 j e
        ∙ ap (λ d. char_or d tr.desc j)
            (write_field-outside 2 17 tr.time_str empty_line (20 + j) (omega arith)
                (inr (omega arith))
              ∙ ground (arith, e));
    amount = λ j e.
        write_field-outside 64 78 (text_in 16 0 (transfer_format balance)) line3 (47 + j)
          (omega arith) (inl (omega (arith, e)))
        ∙ write_field-inside 47 61 (text_in 16 0 (transfer_format tr.amount_num)) line2 j e
        ∙ amount_text tr.amount_num (line2 (47 + j)) j e;
    balance_after = λ j e.
        write_field-inside 64 78 (text_in 16 0 (transfer_format balance)) line3 j e
        ∙ amount_text balance (line3 (64 + j)) j e;
  }
