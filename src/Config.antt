-- ===== src/Config.antt =====
-- Homework/Warmup2/warmup2.c: the command line and the trace file. A string is the list of its
-- characters, without the final 0. atoll, fopen and the words that sscanf takes from a line are calls of
-- the C library.
pub mod Bounds
use csci.Prelude.Outcome.{deref, ◌>>=◌, done, Outcome}
use csci.Bucket.{PacketData}
use csci.Prelude.{
  is_digit, Text, zero, get_last?, ◌-◌, ◌*◌, is_none, length, not, false, ltb, ◌||◌, true, suc,
  ◌==◌, [], ◌&&◌, if◌then◌else◌, leb, List, some, Bool, ◌∷◌, Option, none, ℕ,
}
use mathlib.Core.Option

pub record Libc : Type 0 where
  pub atoll : Text → ℕ
  pub opens : Text → Bool
  pub word : ℕ → Text → Text

abbrev pub int_max : ℕ
int_max = 2147483647

-- strcmp(a, b) == 0
unfoldable pub same : Text → Text → Bool
same [] [] = true
same (x ∷ xs) (y ∷ ys) = x == y && same xs ys
same _ _ = false

pub data Opt : Type 0 where
  lambda_opt mu_opt r_opt b_opt p_opt n_opt t_opt : Opt

abbrev opt_lambda : Text
opt_lambda = b'-' ∷ b'l' ∷ b'a' ∷ b'm' ∷ b'b' ∷ b'd' ∷ b'a' ∷ []

abbrev opt_mu : Text
opt_mu = b'-' ∷ b'm' ∷ b'u' ∷ []

-- The option that a text spells: isValidOption holds if there is one.
unfoldable pub valid_option : Text → Option Opt
unfolding same
valid_option o =
    if same opt_lambda o
    then some Opt.lambda_opt
    else if same opt_mu o
    then some Opt.mu_opt
    else if same (b'-' ∷ b'r' ∷ []) o
    then some Opt.r_opt
    else if same (b'-' ∷ b'B' ∷ []) o
    then some Opt.b_opt
    else if same (b'-' ∷ b'P' ∷ []) o
    then some Opt.p_opt
    else if same (b'-' ∷ b'n' ∷ []) o
    then some Opt.n_opt
    else if same (b'-' ∷ b't' ∷ []) o
    then some Opt.t_opt
    else none

unfoldable pub is_integer : Text → Bool
is_integer [] = true
is_integer (c ∷ cs) = is_digit c && is_integer cs

-- The loop of isNumber: the number of dots, or none where a character is neither dot nor digit.
unfoldable pub count_dots : Text → Option ℕ
count_dots [] = some 0
count_dots (c ∷ cs) =
    let rest = count_dots cs in
    if c == b'.' then Option.map suc rest else if is_digit c then rest else none

-- The last test reads the character in front of an empty value.
unfoldable pub is_number : Text → Outcome Bool
unfolding count_dots
is_number s = elim (count_dots s) [
  | none ↦ done false
  | some dots ↦ do
    let many = ltb 1 dots
    last ← deref (if many then some 0 else get_last? s)
    done (not many && not (last == b'.'))
]

-- The values of the options that were given. The code keeps the index of each option; a later one
-- replaces an earlier one.
pub record Given : Type 0 where
  pub given_lambda : Option Text
  pub given_mu : Option Text
  pub given_r : Option Text
  pub given_b : Option Text
  pub given_p : Option Text
  pub given_n : Option Text
  pub given_t : Option Text

abbrev pub nothing_given : Given
nothing_given = record {
  given_lambda = none;
  given_mu = none;
  given_r = none;
  given_b = none;
  given_p = none;
  given_n = none;
  given_t = none;
}

-- The value that goes with an option.
abbrev pub set_given : Opt → Text → Given → Given
set_given Opt.lambda_opt v g = record g { given_lambda = some v }
set_given Opt.mu_opt v g = record g { given_mu = some v }
set_given Opt.r_opt v g = record g { given_r = some v }
set_given Opt.b_opt v g = record g { given_b = some v }
set_given Opt.p_opt v g = record g { given_p = some v }
set_given Opt.n_opt v g = record g { given_n = some v }
set_given Opt.t_opt v g = record g { given_t = some v }

abbrev pub blank : ℕ → Bool
blank x = x == b' ' || x == b'\t'

-- The character at an index of a line; there is none in front of it.
abbrev pub char_at : Text → ℕ → Option ℕ
char_at [] n = none
char_at (x ∷ xs) zero = some x
char_at (x ∷ xs) (suc n) = char_at xs n

-- checkFileLine, for a line as fgets gives it. The last test reads fileLine[strSize - 2].
unfoldable pub check_file_line : Text → Outcome Bool
check_file_line line = if ltb 1024 (length line) then done false else do
  first ← deref (char_at line 0)
  last ← deref (if leb 2 (length line) || blank first then char_at line (length line - 2) else none)
  done (not (blank first || blank last))

module _ (c : Libc) where
  -- The tests of the value of -B, -P and -n.
  unfoldable pub is_count : Text → Bool
  unfolding is_integer
  is_count v = is_integer v && (ltb 0 (c.atoll v) && leb (c.atoll v) int_max)

  -- Whether checkInput goes on with the value of an option.
  unfoldable pub check_value : Opt → Text → Outcome Bool
  unfolding is_count is_number
  check_value Opt.lambda_opt v = is_number v
  check_value Opt.mu_opt v = is_number v
  check_value Opt.r_opt v = is_number v
  check_value Opt.b_opt v = done (is_count v)
  check_value Opt.p_opt v = done (is_count v)
  check_value Opt.n_opt v = done (is_count v)
  check_value Opt.t_opt v = done (c.opens v)

  -- The loop of checkInput over the arguments that are left. `none` is the exit after a message.
  unfoldable pub check_input : List Text → Given → Outcome (Option Given)
  unfolding valid_option check_value
  check_input [] g = done (some g)
  check_input (o ∷ []) g = done none
  check_input (o ∷ v ∷ rest) g = elim (valid_option o) [
    | none ↦ done none
    | some opt ↦
        if not (is_none (valid_option v))
        then done none
        else check_value opt v >>= λ ok.
            if ok then check_input rest (set_given opt v g) else done none
  ]

  -- checkField
  unfoldable pub check_field : Text → Bool
  unfolding is_integer
  check_field v = is_integer v && ltb 0 (c.atoll v)

  -- readTsFileConfig: the number of packets, and the lines that are left. `none` is an exit.
  unfoldable pub read_ts_config : List Text → Outcome (Option (ℕ × List Text))
  unfolding check_file_line check_field
  read_ts_config [] = done none
  read_ts_config (line ∷ rest) = do
    ok ← check_file_line line
    let size = c.word 0 line
    done (if ok && check_field size then some (c.atoll size, rest) else none)

  -- readTsFileData: the data of a packet, which stays as it is at the end of the file.
  unfoldable pub read_ts_data : PacketData → List Text → Outcome (Option (PacketData × List Text))
  unfolding check_file_line check_field
  read_ts_data d [] = done (some (d, []))
  read_ts_data d (line ∷ rest) = do
    ok ← check_file_line line
    let inter = c.word 0 line
    let need = c.word 1 line
    let service = c.word 2 line
    done (
        if ok && (check_field inter && (check_field need && check_field service))
        then some (
          record {
            inter_packet_time = c.atoll inter * 1000;
            token_need = c.atoll need;
            packet_service_time = c.atoll service * 1000;
          },
          rest,
        )
        else none)

  -- The whole numbers that setDefault and readInput leave in B, P and num, before the trace file.
  unfoldable pub read_counts : Given → ℕ × ℕ × ℕ
  read_counts g = (
    elim g.given_b [ none ↦ 10 | some v ↦ c.atoll v ],
    elim g.given_p [ none ↦ 3 | some v ↦ c.atoll v ],
    elim g.given_n [ none ↦ 20 | some v ↦ c.atoll v ],
  )
