-- ===== src/Tests/Bucket.antt =====
-- Two packets are to come, and the bucket holds two tokens: a packet that needs one token arrives, a
-- token arrives, and the first server takes the packet.
use csci.Bucket.Progress.{token_sections-serve, token_sections, HeadServed, still, signal-stops}
use csci.Bucket.Places.{Reach-Placed, Placed}
use csci.Bucket.Times.{Reach-Timed, Timed}
use csci.Prelude.{◌∷◌, [], refl, arith, false, true, ◌≡◌}
use csci.Bucket.Tokens.{Reach-Ready, Ready}
use csci.Bucket.Fifo.{line, Reach-InOrder, InOrder}
use csci.Bucket.{
  begin_service, add_token, serve_q1, admit, init_packet, tokens_go_on, create_packet, Server,
  token_section, server_section, packets_go_on, new_packet, signal_section, PacketData,
  packet_section, MyPacket, server_waits, server_goes_on,
}
use csci.Bucket.Run.{take, arrive, serve, begins, token, goes_on, System, Reach, start}

abbrev data1 : PacketData
data1 = record { inter_packet_time = 5; token_need = 1; packet_service_time = 20 }

abbrev after_arrival : System
after_arrival = record (start 2 2) { emu = packet_section data1 5 6 7 8 (start 2 2).emu; clock = 8 }

abbrev after_token : System
after_token = record after_arrival { emu = token_section 10 11 after_arrival.emu; clock = 11 }

abbrev after_take : System
after_take = record {
  emu = (server_section Server.s1 12 13 after_token.emu).1;
  serving = serve Server.s1 (server_section Server.s1 12 13 after_token.emu).0 after_token.serving;
  clock = 13;
}

arrival_reached : Reach 2 2 after_arrival
arrival_reached =
    goes_on begins
      (arrive data1 5 6 7 8 (omega arith) (omega arith) (omega arith) (omega arith) (omega arith))

token_reached : Reach 2 2 after_token
token_reached = goes_on arrival_reached (token 10 11 (omega arith) (omega arith))

take_reached : Reach 2 2 after_take
unfolding server_waits packet_section new_packet create_packet init_packet admit serve_q1
    token_section add_token
take_reached = goes_on token_reached (take Server.s1 12 13 refl refl (omega arith) (omega arith))

-- The packet is in outputQ, and the token is gone.
after_take-line : line after_take.emu ≡ 1 ∷ []
unfolding packet_section new_packet create_packet init_packet admit serve_q1 token_section add_token
    server_section begin_service
after_take-line = refl

Reach-Ready_example : Ready after_take.emu
Reach-Ready_example = Reach-Ready 2 2 after_take take_reached

Reach-InOrder_example : InOrder after_take.emu
Reach-InOrder_example = Reach-InOrder 2 2 after_take take_reached

Reach-Placed_example : Placed 2 after_take.emu
Reach-Placed_example = Reach-Placed 2 2 after_take take_reached

Reach-Timed_example : Timed 13 after_take.emu
Reach-Timed_example = Reach-Timed 2 2 after_take take_reached

abbrev waiting_packet : MyPacket
waiting_packet = record (new_packet data1 5 (start 2 2).emu) { enter_q1_time = 6 }

token_sections-serve_example :
    HeadServed waiting_packet [] after_arrival.emu
      (token_sections ((10, 11) ∷ []) after_arrival.emu)
unfolding packet_section new_packet create_packet init_packet admit serve_q1
token_sections-serve_example =
    token_sections-serve (10, 11) [] waiting_packet [] after_arrival.emu
      (Reach-Ready 2 2 after_arrival arrival_reached) refl refl

abbrev signalled : System
signalled = record after_arrival { emu = signal_section after_arrival.emu }

signal-stops_example :
    (signalled.emu.packet_id ≡ after_arrival.emu.packet_id)
    × (signalled.emu.token_id ≡ after_arrival.emu.token_id)
    × (packets_go_on signalled.emu ≡ false)
    × (tokens_go_on signalled.emu ≡ false)
    × (server_goes_on signalled.emu ≡ false)
    × (server_waits signalled.emu ≡ false)
signal-stops_example = signal-stops after_arrival signalled still

-- With packets to come, and no packet on Q1 or Q2, a server goes on and does not wait.
server_spins : (server_goes_on (start 2 2).emu ≡ true) × (server_waits (start 2 2).emu ≡ false)
unfolding server_goes_on server_waits
server_spins = (refl, refl)
