-- ===== src/Bucket.antt =====
-- Homework/Warmup2/warmup2.c: the token bucket in front of two servers. Each function here is a critical
-- section of one of the threads, from pthread_mutex_lock to pthread_mutex_unlock. The times are
-- readings of gettimeofday, in microseconds from emulationStartTime; the clock is taken not to go back.
use csci.Prelude.{
  some, not, ◌||◌, ◌&&◌, ◌-◌, ◌∷◌, none, ltb, ◌==◌, List, map, ◌+◌, leb, ◌++◌, is_nil, Option, ℕ,
  if◌then◌else◌, Bool, [],
}
pub mod Fifo
pub mod Places
pub mod Progress
pub mod Run
pub mod Times
pub mod Tokens

pub record PacketData : Type 0 where
  pub inter_packet_time : ℕ
  pub token_need : ℕ
  pub packet_service_time : ℕ

pub record MyPacket : Type 0 where
  pub service_type : ℕ
  pub packet_type : ℕ
  pub packet_id : ℕ
  pub token_need : ℕ
  pub inter_packet_time : ℕ
  pub packet_service_time : ℕ
  pub arrive_time : ℕ
  pub enter_q1_time : ℕ
  pub leave_q1_time : ℕ
  pub enter_q2_time : ℕ
  pub leave_q2_time : ℕ
  pub begin_service_time : ℕ
  pub end_service_time : ℕ
  pub real_inter_packet_arrive_time : ℕ

-- The globals that the threads share. `b` is B, which no thread changes.
pub record Emulation : Type 0 where
  pub b : ℕ
  pub packet_id : ℕ
  pub token_id : ℕ
  pub cur_token_size : ℕ
  pub token_drop_size : ℕ
  pub input_q_size : ℕ
  pub q1 : List MyPacket
  pub q2 : List MyPacket
  pub output_q : List MyPacket
  pub pre_packet_arrive_time : ℕ

-- What createPacketData takes from the command line: P, allInterPacketTime and allPacketServiceTime.
unfoldable pub create_packet_data : ℕ → ℕ → ℕ → PacketData
create_packet_data p inter service = record {
  inter_packet_time = inter;
  token_need = p;
  packet_service_time = service;
}

unfoldable pub create_packet : MyPacket
create_packet = record {
  service_type = 0;
  packet_type = 0;
  packet_id = 0;
  token_need = 0;
  inter_packet_time = 0;
  packet_service_time = 0;
  arrive_time = 0;
  enter_q1_time = 0;
  leave_q1_time = 0;
  enter_q2_time = 0;
  leave_q2_time = 0;
  begin_service_time = 0;
  end_service_time = 0;
  real_inter_packet_arrive_time = 0;
}

unfoldable pub init_packet : ℕ → PacketData → MyPacket → MyPacket
init_packet id d p = record p {
  packet_id = id;
  token_need = d.token_need;
  inter_packet_time = d.inter_packet_time;
  packet_service_time = d.packet_service_time;
}

-- The head of Q1, and the packets behind it, when there are enough tokens for it: the code that
-- packetFunc and tokenFunc share. `leave` and `enter` are the two readings of the clock.
unfoldable pub serve_q1 : ℕ → ℕ → List MyPacket → Emulation → Emulation
serve_q1 leave enter [] s = s
serve_q1 leave enter (p ∷ ps) s =
    if leb p.token_need s.cur_token_size
    then record s {
      q1 = ps;
      cur_token_size = s.cur_token_size - p.token_need;
      q2 = s.q2 ++ record p { leave_q1_time = leave; enter_q2_time = enter } ∷ [];
    }
    else s

-- The new packet of packetFunc, which arrives at `now`.
unfoldable pub new_packet : PacketData → ℕ → Emulation → MyPacket
unfolding create_packet init_packet
new_packet d now s = record (init_packet (s.packet_id + 1) d create_packet) {
  arrive_time = now;
  real_inter_packet_arrive_time = now - s.pre_packet_arrive_time;
}

-- What packetFunc does with it.
unfoldable pub admit : MyPacket → ℕ → ℕ → ℕ → Emulation → Emulation
unfolding serve_q1
admit p enter1 leave enter2 s =
    if ltb s.b p.token_need
    then record s { output_q = s.output_q ++ record p { packet_type = 2 } ∷ [] }
    else let q1' = s.q1 ++ record p { enter_q1_time = enter1 } ∷ [] in
      serve_q1 leave enter2 q1' (record s { q1 = q1' })

-- The counters when a packet arrives.
abbrev pub arriving : ℕ → Emulation → Emulation
arriving now s = record s {
  input_q_size = s.input_q_size - 1;
  packet_id = s.packet_id + 1;
  pre_packet_arrive_time = now;
}

-- The critical section of packetFunc.
unfoldable pub packet_section : PacketData → ℕ → ℕ → ℕ → ℕ → Emulation → Emulation
unfolding new_packet admit
packet_section d now enter1 leave enter2 s =
    if s.input_q_size == 0
    then s
    else admit (new_packet d now s) enter1 leave enter2 (arriving now s)

-- A token arrives: it is dropped if the bucket is full.
unfoldable pub add_token : Emulation → Emulation
add_token s =
    if leb s.b s.cur_token_size
    then record s { token_id = s.token_id + 1; token_drop_size = s.token_drop_size + 1 }
    else record s { token_id = s.token_id + 1; cur_token_size = s.cur_token_size + 1 }

-- The critical section of tokenFunc.
unfoldable pub token_section : ℕ → ℕ → Emulation → Emulation
unfolding add_token serve_q1
token_section leave enter s =
    if s.input_q_size == 0 && is_nil s.q1 then s else serve_q1 leave enter s.q1 (add_token s)

-- The loop conditions of the three kinds of threads.
unfoldable pub packets_go_on : Emulation → Bool
packets_go_on s = ltb 0 s.input_q_size

unfoldable pub tokens_go_on : Emulation → Bool
tokens_go_on s = ltb 0 s.input_q_size || not (is_nil s.q1)

unfoldable pub server_goes_on : Emulation → Bool
server_goes_on s = ltb 0 s.input_q_size || (not (is_nil s.q1) || not (is_nil s.q2))

-- The condition on which serverFunc calls pthread_cond_wait.
unfoldable pub server_waits : Emulation → Bool
server_waits s = is_nil s.q2 && (ltb 0 s.input_q_size && not (is_nil s.q1))

pub data Server : Type 0 where
  s1 s2 : Server

abbrev pub service_of : Server → ℕ
service_of s1 = 1
service_of s2 = 2

-- The critical section of serverFunc, once it does not wait: the id of the packet that it serves, if
-- there is one.
unfoldable pub begin_service : Server → ℕ → ℕ → List MyPacket → Emulation → Option ℕ × Emulation
begin_service name leave begin [] s = (none, s)
begin_service name leave begin (p ∷ ps) s = (
  some p.packet_id,
  record s {
    q2 = ps;
    output_q =
        s.output_q
        ++ record p {
          leave_q2_time = leave;
          packet_type = 1;
          service_type = service_of name;
          begin_service_time = begin;
        }
          ∷ [];
  },
)

unfoldable pub server_section : Server → ℕ → ℕ → Emulation → Option ℕ × Emulation
unfolding begin_service
server_section name leave begin s = begin_service name leave begin s.q2 s

-- The end of the service, outside the lock. The packet is in outputQ already, and no two packets have
-- the same id.
unfoldable pub end_service : ℕ → ℕ → Emulation → Emulation
end_service id now s = record s {
  output_q =
      map (λ p. if p.packet_id == id then record p { end_service_time = now } else p) s.output_q;
}

-- A packet that signalFunc removes.
abbrev pub removed : MyPacket → MyPacket
removed p = record p { packet_type = 3 }

-- The critical section of signalFunc.
unfoldable pub signal_section : Emulation → Emulation
signal_section s = record s {
  input_q_size = 0;
  q1 = [];
  q2 = [];
  output_q = (s.output_q ++ map removed s.q1) ++ map removed s.q2;
}
