-- ===== src/Tests/Config.antt =====
-- A command line and a line of a trace file.
use csci.Prelude.{Text, some, refl, ◌-◌, ◌+◌, none, ◌*◌, ◌≡◌, [], ◌∷◌, true, List, ℕ}
use csci.Prelude.Outcome.{wild, done}
use csci.Bucket.{PacketData}
use csci.Config.{
  is_count, check_value, same, is_integer, char_at, nothing_given, valid_option, Libc,
  check_file_line, check_input,
}

abbrev value_from : ℕ → Text → ℕ
value_from n [] = n
value_from n (c ∷ cs) = value_from (n * 10 + (c - b'0')) cs

-- Words are single characters here.
abbrev libc : Libc
libc = record {
  atoll = value_from 0;
  opens = λ name. true;
  word = λ i line. elim (char_at line (2 * i)) [ none ↦ [] | some x ↦ x ∷ [] ];
}

abbrev args : List Text
args = (b'-' ∷ b'B' ∷ []) ∷ (b'4' ∷ b'2' ∷ []) ∷ []

-- "-B 42" is accepted.
args_accepted :
    check_input libc args nothing_given
    ≡ done (some (record nothing_given { given_b = some (b'4' ∷ b'2' ∷ []) }))
unfolding check_input valid_option same check_value is_count is_integer
args_accepted = refl

abbrev line1 : Text
line1 = b'5' ∷ b' ' ∷ b'3' ∷ b' ' ∷ b'9' ∷ b'\n' ∷ []

abbrev defaults : PacketData
defaults = record { inter_packet_time = 1; token_need = 3; packet_service_time = 1 }

-- A line of one character, an empty line, is read in front of its begin.
empty_line : check_file_line (b'\n' ∷ []) ≡ wild
unfolding check_file_line
empty_line = refl
