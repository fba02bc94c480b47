-- ===== src/Bucket/Run.antt =====
-- The threads of warmup2.c, interleaved in any order.
use csci.Prelude.{some, false, ◌≡◌, ◌≤◌, none, Option, [], ◌<◌, ℕ}
use csci.Bucket.{
  signal_section, end_service, server_section, server_waits, token_section, packet_section,
  PacketData, Emulation, Server,
}

-- The globals, the packets that the two servers have, and the last reading of the clock.
pub record System : Type 0 where
  pub emu : Emulation
  pub serving : Server → Option ℕ
  pub clock : ℕ

abbrev pub serve : Server → Option ℕ → (Server → Option ℕ) → Server → Option ℕ
serve Server.s1 o f Server.s1 = o
serve Server.s1 o f Server.s2 = f Server.s2
serve Server.s2 o f Server.s1 = f Server.s1
serve Server.s2 o f Server.s2 = o

-- One critical section, or the end of a service. The token need of a packet is positive: checkInput and
-- checkField see to that.
pub data Step (s : System) : System → Type 0 where
  arrive :
      (d : PacketData) (now enter1 leave enter2 : ℕ)
      → 0 < d.token_need
      → s.clock ≤ now
      → now ≤ enter1
      → enter1 ≤ leave
      → leave ≤ enter2
      → Step s (record s { emu = packet_section d now enter1 leave enter2 s.emu; clock = enter2 })
  token :
      (leave enter : ℕ)
      → s.clock ≤ leave
      → leave ≤ enter
      → Step s (record s { emu = token_section leave enter s.emu; clock = enter })
  take :
      (name : Server) (leave begin : ℕ)
      → s.serving name ≡ none
      → server_waits s.emu ≡ false
      → s.clock ≤ leave
      → leave ≤ begin
      → Step s (record {
        emu = (server_section name leave begin s.emu).1;
        serving = serve name (server_section name leave begin s.emu).0 s.serving;
        clock = begin;
      })
  depart :
      (name : Server) (id now : ℕ)
      → s.serving name ≡ some id
      → s.clock ≤ now
      → Step s (record {
        emu = end_service id now s.emu;
        serving = serve name none s.serving;
        clock = now;
      })
  signal : Step s (record s { emu = signal_section s.emu })

-- The state that setDefault, readInput and init leave: `num` packets are to come.
abbrev pub start : ℕ → ℕ → System
start b num = record {
  emu = record {
    b = b;
    packet_id = 0;
    token_id = 0;
    cur_token_size = 0;
    token_drop_size = 0;
    input_q_size = num;
    q1 = [];
    q2 = [];
    output_q = [];
    pre_packet_arrive_time = 0;
  };
  serving = λ name. none;
  clock = 0;
}

pub data Reach (b num : ℕ) : System → Type 0 where
  begins : Reach b num (start b num)
  goes_on : {s t : System} → Reach b num s → Step s t → Reach b num t
