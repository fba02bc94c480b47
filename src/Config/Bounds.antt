-- ===== src/Config/Bounds.antt =====
-- checkInput, readInput and readTsFileData: the numbers that the emulation starts with.
use csci.Prelude.Outcome.{out_of_fuel, wild, panic, ◌>>=◌, done, Outcome}
use csci.Bucket.{PacketData}
use csci.Prelude.{
  Text, ◌&&◌, if◌then◌else◌, ◌*◌, none, ◌≤◌, [], ◌∷◌, ◌<◌, arith, some, false, Bool, is_nil, Option,
  ◌≡◌, ℕ, List,
}
use csci.Config.{check_file_line, check_field, read_ts_data, int_max, Given, Libc}

-- A value of -B, -P or -n that checkInput accepted, if there is one.
abbrev pub IsCount : Libc → Option Text → Type 0
IsCount c none = Unit {0}
IsCount c (some v) = (0 < c.atoll v) × (c.atoll v ≤ int_max)

abbrev pub InRange : Libc → Given → Type 0
InRange c g = IsCount c g.given_b × IsCount c g.given_p × IsCount c g.given_n

-- What the loop of checkInput does: it returns, and what it accepts is in range.
abbrev pub Accepts : Libc → Outcome (Option Given) → Type 0
Accepts c o = (r : Option Given) × (o ≡ done r) × ((g : Given) → r ≡ some g → InRange c g)

-- An argument that is not empty.
abbrev pub IsGiven : Text → Type 0
IsGiven v = is_nil v ≡ false

-- A number from 1 to INT_MAX.
abbrev pub Counts : ℕ → Type 0
Counts x = (0 < x) × (x ≤ int_max)

-- The packets that readTsFileData makes of a line, and the default that it keeps at the end of the file,
-- need at least one token: what Step asks of a packet that arrives.
pub read_ts_data_positive :
    (c : Libc) (d d' : PacketData) (lines rest : List Text)
    → 0 < d.token_need
    → read_ts_data c d lines ≡ done (some (d', rest))
    → 0 < d'.token_need
unfolding read_ts_data check_field
read_ts_data_positive c d d' [] rest pos e = ground (arith, e)
read_ts_data_positive c d d' (line ∷ lines) rest pos e = after (check_file_line line) e
  where
    inter : Text
    inter = c.word 0 line

    need : Text
    need = c.word 1 line

    service : Text
    service = c.word 2 line

    made : PacketData
    made = record {
      inter_packet_time = c.atoll inter * 1000;
      token_need = c.atoll need;
      packet_service_time = c.atoll service * 1000;
    }

    kept : Bool → Option (PacketData × List Text)
    kept ok =
        if ok && (check_field c inter && (check_field c need && check_field c service))
        then some (made, lines)
        else none

    after :
        (o : Outcome Bool)
        → (o >>= λ ok. done (kept ok)) ≡ done (some (d', rest))
        → 0 < d'.token_need
    after (done ok) e' = ground (arith, e')
    after panic e' = cc
    after wild e' = cc
    after out_of_fuel e' = cc
