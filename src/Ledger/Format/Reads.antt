-- ===== src/Ledger/Format/Reads.antt =====
-- transferFormat: the amount can be read back from its text.
use csci.Prelude.{
  ◌∙◌, inr, abs, inl, Bool-cases, ◌&&◌, Bool, ◌%◌, leb, refl, zero, suc, false, ◌/◌, arith, true,
  ltb, ◌≡◌, neg, ◌==◌, if◌then◌else◌, ◌<◌, ◌*◌, ◌≤◌, ℤ, ◌-◌, ◌+◌, ℕ,
}
use csci.Ledger.Format.{transfer_format, set_char, before_mark, pad, Buffer, write_digits}

-- The number that a digit, or a space, stands for.
abbrev digit : ℕ → ℕ
digit c = c - b'0'

-- The number that the digits of a text make.
abbrev digits : Buffer → ℕ
digits t =
    digit (t 12)
    + digit (t 11) * 10
    + digit (t 9) * 100
    + digit (t 8) * 1000
    + digit (t 7) * 10000
    + digit (t 5) * 100000
    + digit (t 4) * 1000000
    + digit (t 3) * 10000000
    + digit (t 1) * 100000000

abbrev pub amount_in : Buffer → ℤ
amount_in t = if t 0 == b'(' then neg (digits t) else ℤ.pos (digits t)

-- A number of `k` digits, 0 being one of none.
abbrev Long : ℕ → ℕ → Type 0
Long zero m = ltb 0 m ≡ false
Long (suc k) m = (ltb 0 m ≡ true) × Long k (m / 10)

-- The first `n` characters of the text are there.
abbrev pub Filled : ℕ → Buffer → Type 0
Filled zero t = Unit
Filled (suc n) t = (0 < t n) × Filled n t

abbrev Written : ℕ → Buffer → Buffer → Type 0
Written m t out =
    (digits out ≡ m) × (out 10 ≡ b'.') × Filled 14 out × (out 0 ≡ t 0) × (out 14 ≡ t 14)

-- The index after a digit that is not the last, and the text with the digit.
abbrev next : ℕ → ℕ
next index = if before_mark index then index - 2 else index - 1

abbrev with_mark : ℕ → Buffer → Buffer
with_mark index t =
    if before_mark index then set_char (index - 1) (if index == 11 then b'.' else b',') t else t

-- What the loop writes for a number of `k` digits.
abbrev spell : ℕ → ℕ → ℕ → Buffer → ℕ × Buffer
spell zero m i t = (i, t)
spell (suc zero) m i t = (i - 1, set_char i (b'0' + m % 10) t)
spell (suc (suc k)) m i t =
    spell (suc k) (m / 10) (next i) (with_mark i (set_char i (b'0' + m % 10) t))

-- There is a place for each of `k` digits.
abbrev Room : ℕ → ℕ → Type 0
Room zero i = Unit
Room (suc k) i = (leb 1 i ≡ true) × Room k (next i)

and_true : (b : Bool) → (b && true) ≡ b
and_true true = refl
and_true false = refl

and_false : (b : Bool) → (b && false) ≡ false
and_false true = refl
and_false false = refl

stops : (f m i : ℕ) (t : Buffer) → ltb 0 m ≡ false → write_digits f m i t ≡ (i, t)
unfolding write_digits
stops zero m i t e = refl
stops (suc f) m i t e = rw e refl

spells :
    (k f m i : ℕ) (t : Buffer) → Long k m → Room k i → k ≤ f → write_digits f m i t ≡ spell k m i t
unfolding write_digits
spells zero f m i t l r le = stops f m i t l
spells (suc k) zero m i t l r le = absurd (omega arith)
spells (suc zero) (suc f) m i t (a, b) (r, r') le =
    let last : ltb 0 (m / 10) ≡ false = b in
    rw (a, r, last, and_false (before_mark i))
      (stops f (m / 10) (i - 1) (set_char i (b'0' + m % 10) t) b)
spells (suc (suc k)) (suc f) m i t (a, (b, l)) (r, r') le =
    rw (a, r, b, and_true (before_mark i))
      (spells (suc k) f (m / 10) (next i) (with_mark i (set_char i (b'0' + m % 10) t)) (b, l) r'
        (omega arith))

-- The number has at most `k` digits.
abbrev Ends : ℕ → ℕ → Type 0
Ends zero m = m ≡ 0
Ends (suc k) m = Ends k (m / 10)

spelled :
    (k m : ℕ) (t : Buffer)
    → (0 < t 0) × (0 < t 13)
    → Ends k m
    → k ≤ 9
    → Written m t (pad (spell k m 12 t))
spelled zero m t h e le = ground arith
spelled (suc zero) m t h e le = ground arith
spelled (suc (suc zero)) m t h e le = ground arith
spelled (suc (suc (suc zero))) m t h e le = ground arith
spelled (suc (suc (suc (suc zero)))) m t h e le = ground arith
spelled (suc (suc (suc (suc (suc zero))))) m t h e le = ground arith
spelled (suc (suc (suc (suc (suc (suc zero)))))) m t h e le = ground arith
spelled (suc (suc (suc (suc (suc (suc (suc zero))))))) m t h e le = ground arith
spelled (suc (suc (suc (suc (suc (suc (suc (suc zero)))))))) m t h e le = ground arith
spelled (suc (suc (suc (suc (suc (suc (suc (suc (suc zero))))))))) m t h e le = ground arith
spelled (suc (suc (suc (suc (suc (suc (suc (suc (suc (suc k)))))))))) m t h e le =
    absurd (omega arith)

Long-Ends : (k m : ℕ) → Long k m → Ends k m
Long-Ends zero m l = ground (arith, l)
Long-Ends (suc k) m l = Long-Ends k (m / 10) l.1

-- A number of at most `n` digits has a length.
sized : (n m : ℕ) → Ends n m → (k : ℕ) × (k ≤ n) × Long k m
sized zero m e = (0, omega arith, ground (arith, e))
sized (suc n) m e = elim (Bool-cases (ltb 0 m)) [
  | inl some_left ↦
      let (k, le, l) = sized n (m / 10) e in (suc k, omega (arith, le), (some_left, l))
  | inr none_left ↦ (0, omega arith, none_left)
]

Room-fewer : (k n i : ℕ) → k ≤ n → Room n i → Room k i
Room-fewer zero n i le r = tt
Room-fewer (suc k) zero i le r = absurd (omega arith)
Room-fewer (suc k) (suc n) i le r = (r.0, Room-fewer k n (next i) (omega arith) r.1)

nine_places : Room 9 12
nine_places = (refl, (refl, (refl, (refl, (refl, (refl, (refl, (refl, (refl, tt)))))))))

written :
    (m : ℕ) (t : Buffer)
    → (0 < t 0) × (0 < t 13)
    → m < 1000000000
    → Written m t (pad (write_digits 12 m 12 t))
written m t h lt =
    let nine : Ends 9 m = omega (arith, lt) in
    let (k, le, l) = sized 9 m nine in
    rw (spells k 12 m 12 t l (Room-fewer k 9 12 le nine_places) (omega (arith, le)))
      (spelled k m t h (Long-Ends k m l) le)

-- The text of an amount: it has 14 characters, a dot in front of the cents, and its sign and its digits make
-- the amount.
abbrev pub Reads : ℤ → Buffer → Type 0
Reads money out = (amount_in out ≡ money) × (out 10 ≡ b'.') × Filled 14 out × (out 14 ≡ 0)

Written-Reads :
    (money : ℤ) (t out : Buffer)
    → Written (abs money) t out
    → (if t 0 == b'(' then neg (abs money) else ℤ.pos (abs money)) ≡ money
    → t 14 ≡ 0
    → Reads money out
Written-Reads money t out (value, dot, filled, front, ended) sign e =
    (rw (front, value) sign, dot, filled, ended ∙ e)

-- The text that transferFormat makes of an amount below 10^9 cents, in either direction, is read back as
-- the amount: parentheses are the sign, the digits in their places the number of cents. The text has
-- 14 characters, and the one in front of the cents is a dot.
pub transfer_format-Reads :
    (money : ℤ) → abs money < 1000000000 → Reads money (transfer_format money)
unfolding transfer_format
transfer_format-Reads (ℤ.pos n) lt =
    let small : leb 1000000000 n ≡ false = ground (arith, lt) in
    let t = set_char 13 b' ' (set_char 0 b' ' (λ j. 0)) in
    rw small (
      Written-Reads (ℤ.pos n) t (pad (write_digits 12 n 12 t))
        (written n t (omega arith, omega arith) lt) refl refl)
transfer_format-Reads (ℤ.negsuc n) lt =
    let small : leb 1000000000 (suc n) ≡ false = ground (arith, lt) in
    let t = set_char 13 b')' (set_char 0 b'(' (λ j. 0)) in
    rw small (
      Written-Reads (ℤ.negsuc n) t (pad (write_digits 12 (suc n) 12 t))
        (written (suc n) t (omega arith, omega arith) lt) refl refl)
