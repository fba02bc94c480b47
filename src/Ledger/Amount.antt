-- ===== src/Ledger/Amount.antt =====
-- checkAmount: which texts it accepts, and as what amount.

use csci.Ledger.{check_amount, starts_with, dot_index, count_char, all_digits}
use csci.Prelude.{
  ◌↔◌, Text, not, ◌||◌, inr, ge→ltb, inl, ltb, ◌&&◌, ◌==◌, some, Bool, Bool-cases, false, ◌≢◌, ◌⊎◌,
  ◌<◌, refl, suc, ap, [], ◌≤◌, length, ◌+◌, arith, ◌*◌, true, ◌∷◌, ℕ, ◌++◌, ◌≡◌, take, drop,
}

module _ (atoll : Text → ℕ) where
  -- A text of digits in front of the dot and one behind it, as an amount is written.
  pub record IsAmount (whole cents : Text) : Type 0 where
    pub whole_digits : all_digits whole ≡ true
    pub cents_digits : all_digits cents ≡ true
    pub whole_size : length whole ≤ 7
    pub cents_size : length cents ≡ 2
    pub not_zero : (0 < atoll whole) ⊎ (0 < atoll cents)
    pub no_leading_zero : length whole ≢ 1 → starts_with b'0' (whole ++ b'.' ∷ cents) ≡ false

  -- The amount in cents.
  abbrev pub amount_of : Text → Text → ℕ
  amount_of whole cents = atoll whole * 100 + atoll cents

no_dots : (xs : Text) → all_digits xs ≡ true → count_char b'.' xs ≡ 0
unfolding all_digits count_char
no_dots [] e = refl
no_dots (x ∷ xs) e = ground (arith, no_dots xs)

-- What the scan for the dot finds in a text with one dot.
record Split (xs ys : Text) : Type 0 where
  dots : count_char b'.' (xs ++ b'.' ∷ ys) ≡ 1
  index : dot_index (xs ++ b'.' ∷ ys) ≡ length xs
  before : take (length xs) (xs ++ b'.' ∷ ys) ≡ xs
  after : drop (suc (length xs)) (xs ++ b'.' ∷ ys) ≡ ys

digits-Split : (xs ys : Text) → all_digits xs ≡ true → all_digits ys ≡ true → Split xs ys
unfolding all_digits count_char dot_index take drop
digits-Split [] ys a b = record {
  dots = omega (arith, no_dots ys b);
  index = rw (no_dots ys b) refl;
  before = refl;
  after = refl;
}
digits-Split (x ∷ xs) ys a b =
    let r = digits-Split xs ys (ground (arith, a)) b in
    record {
      dots = ground (arith, a, r.dots);
      index = rw r.dots (ap suc r.index);
      before = ap (λ l. x ∷ l) r.before;
      after = r.after;
    }

-- A text with one dot is what stands before the dot, the dot, and what stands behind it.
dot_splits :
    (s : Text)
    → count_char b'.' s ≡ 1
    → (s ≡ take (dot_index s) s ++ b'.' ∷ drop (suc (dot_index s)) s)
      × (length (take (dot_index s) s) ≡ dot_index s)
unfolding count_char dot_index take drop
dot_splits [] e = absurd (omega (arith, e))
dot_splits (x ∷ xs) e = elim (Bool-cases (count_char b'.' xs == 0)) [
  | inl last ↦ let here : x ≡ b'.' = ground (arith, e) in rw last (ap (λ c. c ∷ xs) here, refl)
  | inr more ↦
      let (s, l) = dot_splits xs (ground (arith, e)) in rw more (ap (λ l. x ∷ l) s, ap suc l)
]

-- Boolean tests that hold together, and apart.
and_both : (a b : Bool) → a ≡ true → b ≡ true → (a && b) ≡ true
and_both a b p q = rw (p, q) refl

module _ (atoll : Text → ℕ) where
  accepts :
      (whole cents : Text)
      → IsAmount atoll whole cents
      → check_amount atoll (whole ++ b'.' ∷ cents) ≡ some (amount_of atoll whole cents)
  unfolding check_amount
  accepts whole cents h =
      let s = digits-Split whole cents h.whole_digits h.cents_digits in
      let seven : ltb 7 (length whole) ≡ false = ge→ltb 7 (length whole) h.whole_size in
      let worth : (ltb 0 (atoll whole) || ltb 0 (atoll cents)) ≡ true =
        ground (arith, h.not_zero) in
      let plain : (not (length whole == 1) && starts_with b'0' (whole ++ b'.' ∷ cents)) ≡ false =
        ground (arith, h.no_leading_zero) in
      rw
        (
          s.dots, s.index, s.before, s.after, h.whole_digits, h.cents_digits, seven, h.cents_size,
          worth, plain,
        )
        refl

  -- The parts of a text that is accepted with the amount `n`.
  pub record Parts (s : Text) (n : ℕ) : Type 0 where
    pub whole : Text
    pub cents : Text
    pub text : s ≡ whole ++ b'.' ∷ cents
    pub ok : IsAmount atoll whole cents
    pub value : n ≡ amount_of atoll whole cents

  sound : (s : Text) (n : ℕ) → check_amount atoll s ≡ some n → Parts s n
  unfolding check_amount
  sound s n e =
      let one : count_char b'.' s ≡ 1 = ground (arith, e) in
      let (text, size) = dot_splits s one in
      record {
        whole = take (dot_index s) s;
        cents = drop (suc (dot_index s)) s;
        text = text;
        ok = record {
          whole_digits = ground (arith, e);
          cents_digits = ground (arith, e);
          whole_size = ground (arith, e, size);
          cents_size = ground (arith, e);
          not_zero = ground (arith, e);
          no_leading_zero = λ l. rw (← text) (ground (arith, e, size, l));
        };
        value = ground (arith, e);
      }

  -- checkAmount accepts a text with the amount `n` exactly if it is made of at most seven digits, a dot and
  -- two digits, the number in front of the dot or the one behind it is more than 0, and the text does not
  -- begin with 0, unless there is a single digit in front of the dot; `n` is the amount in cents.
  pub check_amount-accepts : (s : Text) (n : ℕ) → (check_amount atoll s ≡ some n) ↔ Parts s n
  check_amount-accepts s n = (sound s n, λ p. rw (p.text, p.value) (accepts p.whole p.cents p.ok))
