-- ===== src/Ledger.antt =====
-- Homework/Warmup1/warmup1.c: the checks of a transaction file, its sorting and its table. A string is the
-- list of its characters, without the final 0; `none` is an exit with a message.
pub mod Amount
pub mod Format
pub mod Sort
use csci.Prelude.Outcome.{wild, ◌>>=◌, done, Outcome}
use csci.Prelude.{
  is_digit, Text, ◌*◌, ◌||◌, ltb, [], zero, ◌+◌, not, ◌&&◌, suc, neg, ◌==◌, if◌then◌else◌, leb, ℤ,
  ◌∷◌, false, true, none, some, length, Option, ℕ, take, Bool, List,
}
use mathlib.Core.Option
use csci.Prelude.{take, drop}

-- struct tagMy402ListElemObj. The texts that are only printed are left out, but for the description.
pub record Transaction : Type 0 where
  pub desc : Text
  pub time_str : Text
  pub timestamp : ℕ
  pub amount_num : ℤ
  pub line_num : ℕ

-- The characters of a text that are `c`.
unfoldable pub count_char : ℕ → Text → ℕ
count_char c [] = 0
count_char c (x ∷ xs) = (if x == c then 1 else 0) + count_char c xs

unfoldable pub all_digits : Text → Bool
all_digits [] = true
all_digits (c ∷ cs) = is_digit c && all_digits cs

unfoldable pub check_line : Text → Bool
unfolding count_char
check_line line = leb (length line) 1024 && count_char b'\t' line == 3

unfoldable pub check_type : Text → Bool
check_type (c ∷ []) = c == b'+' || c == b'-'
check_type _ = false

-- The first character of a text that is not empty.
abbrev pub starts_with : ℕ → Text → Bool
starts_with c [] = false
starts_with c (x ∷ xs) = x == c

-- `atoll` is the function of the C library, `now` the result of time(NULL).
unfoldable pub check_time : (Text → ℕ) → ℕ → Text → Option ℕ
unfolding all_digits
check_time atoll now my_time =
    if (leb 1 (length my_time) && ltb (length my_time) 11)
      && (all_digits my_time && (not (starts_with b'0' my_time) && leb (atoll my_time) now))
    then some (atoll my_time)
    else none

-- The index of the dot; with one dot, the last is the one.
unfoldable pub dot_index : Text → ℕ
unfolding count_char
dot_index [] = 0
dot_index (x ∷ xs) = if count_char b'.' xs == 0 then 0 else suc (dot_index xs)

unfoldable pub check_amount : (Text → ℕ) → Text → Option ℕ
unfolding count_char all_digits dot_index take drop
check_amount atoll amount =
    let dot = dot_index amount in
    let before = take dot amount in
    let after = drop (suc dot) amount in
    let num = atoll before * 100 + atoll after in
    if not (count_char b'.' amount == 1) || not (all_digits before && all_digits after)
    then none
    else if ltb 7 dot || not (length after == 2)
    then none
    else if ltb 0 (atoll before) || ltb 0 (atoll after)
    then (if not (dot == 1) && starts_with b'0' amount then none else some num)
    else none

-- The index of the first character that is not a space, or 0.
unfoldable pub first_non_space : Text → Option ℕ
first_non_space [] = none
first_non_space (x ∷ xs) =
    let rest = first_non_space xs in if x == b' ' then Option.map suc rest else some 0

abbrev pub or_zero : Option ℕ → ℕ
or_zero none = 0
or_zero (some n) = n

-- checkDesc: the text that it leaves in `desc`. The copy in `temp` has room for 25 characters, and
-- no final 0 if there are so many: strcpy then reads on behind it.
unfoldable pub check_desc : Text → Outcome (Option Text)
unfolding first_non_space drop
check_desc desc =
    if length desc == 0
    then done none
    else if leb 25 (length (drop (or_zero (first_non_space desc)) desc))
    then wild
    else done (some (drop (or_zero (first_non_space desc)) desc))

-- The amount with the sign of the type.
abbrev pub signed : Text → ℕ → ℤ
signed type n = if starts_with b'-' type then neg n else ℤ.pos n

-- A round of the loop of main, for the fields that sscanf takes from the line and the date that strftime
-- makes.
unfoldable pub read_line :
    (Text → ℕ) → ℕ → (ℕ → Text) → (ℕ → Text → Text) → ℕ → Text → Outcome (Option Transaction)
unfolding check_line check_type check_time check_amount check_desc
read_line atoll now date field line_num line = do
  let type = field 0 line
  let my_time = check_time atoll now (field 1 line)
  let my_amount = check_amount atoll (field 2 line)
  if not (check_line line && check_type type) then done none else elim my_time [
    | none ↦ done none
    | some t ↦ elim my_amount [
      | none ↦ done none
      | some n ↦ do
        d ← check_desc (field 3 line)
        done (
            Option.map
              (λ text. record {
                desc = text;
                time_str = date t;
                timestamp = t;
                amount_num = signed type n;
                line_num = line_num;
              })
              d)
    ]
  ]

-- BubbleForward on neighbours exchanges their objects. The inner loop of BubbleSortForwardList makes
-- `k` comparisons; the result says whether something was swapped.
unfoldable pub bubble_pass : ℕ → List Transaction → Option (Bool × List Transaction)
bubble_pass (suc k) (x ∷ y ∷ r) =
    if x.timestamp == y.timestamp
    then none
    else if ltb y.timestamp x.timestamp
    then Option.map (λ o. (true, y ∷ o.1)) (bubble_pass k (x ∷ r))
    else Option.map (λ o. (o.0, x ∷ o.1)) (bubble_pass k (y ∷ r))
bubble_pass _ xs = some (false, xs)

-- The outer loop, with the rounds that are left.
unfoldable pub bubble_rounds : ℕ → List Transaction → Option (List Transaction)
unfolding bubble_pass
bubble_rounds zero xs = some xs
bubble_rounds (suc r) xs = elim (bubble_pass r xs) [
  | none ↦ none
  | some o ↦ let rest = bubble_rounds r o.1 in if o.0 then rest else some o.1
]

unfoldable pub bubble_sort : List Transaction → Option (List Transaction)
unfolding bubble_rounds
bubble_sort xs = bubble_rounds (length xs) xs
