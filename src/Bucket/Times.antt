-- ===== src/Bucket/Times.antt =====
-- The times of a packet.
use csci.Prelude.{
  is_nil, ◌&&◌, lt→ltb, refl, ◌++◌, ge→ltb, leb, gt→leb, All-append, inr, Bool-cases, le→leb, ◌==◌,
  inl, le_or_lt, [], if◌then◌else◌, ◌⊎◌, ◌∷◌, arith, map, ◌≤◌, ◌≡◌, All, List, ℕ,
}
use csci.Bucket.Run.{signal, depart, take, token, arrive, Step, begins, goes_on, Reach, System}
use csci.Bucket.{
  arriving, PacketData, token_section, init_packet, signal_section, create_packet, service_of,
  new_packet, Server, end_service, begin_service, admit, server_section, packet_section, add_token,
  removed, Emulation, MyPacket, serve_q1,
}

-- A packet on Q1, at a time when the clock reads `c`.
abbrev pub OnQ1 : ℕ → MyPacket → Type 0
OnQ1 c p = (p.arrive_time ≤ p.enter_q1_time) × (p.enter_q1_time ≤ c) × (p.end_service_time ≡ 0)

abbrev pub OnQ2 : ℕ → MyPacket → Type 0
OnQ2 c p =
    (p.arrive_time ≤ p.enter_q1_time)
    × (p.enter_q1_time ≤ p.leave_q1_time)
    × (p.leave_q1_time ≤ p.enter_q2_time)
    × (p.enter_q2_time ≤ c)
    × (p.end_service_time ≡ 0)

-- A packet that a server took, and that it has served unless its last time is still 0.
abbrev pub Served : ℕ → MyPacket → Type 0
Served c p =
    p.packet_type ≡ 1
    → (p.arrive_time ≤ p.enter_q1_time)
      × (p.enter_q1_time ≤ p.leave_q1_time)
      × (p.leave_q1_time ≤ p.enter_q2_time)
      × (p.enter_q2_time ≤ p.leave_q2_time)
      × (p.leave_q2_time ≤ p.begin_service_time)
      × (p.begin_service_time ≤ c)
      × ((p.end_service_time ≡ 0)
          ⊎ ((p.begin_service_time ≤ p.end_service_time) × (p.end_service_time ≤ c)))

pub record Timed (c : ℕ) (s : Emulation) : Type 0 where
  pub on_q1 : All (OnQ1 c) s.q1
  pub on_q2 : All (OnQ2 c) s.q2
  pub done : All (Served c) s.output_q

OnQ1-mono : (c c' : ℕ) (ps : List MyPacket) → c ≤ c' → All (OnQ1 c) ps → All (OnQ1 c') ps
OnQ1-mono c c' [] h a = tt
OnQ1-mono c c' (p ∷ ps) h a = ((a.0.0, omega (arith, a.0), a.0.2), OnQ1-mono c c' ps h a.1)

OnQ2-mono : (c c' : ℕ) (ps : List MyPacket) → c ≤ c' → All (OnQ2 c) ps → All (OnQ2 c') ps
OnQ2-mono c c' [] h a = tt
OnQ2-mono c c' (p ∷ ps) h a =
    ((a.0.0, a.0.1, a.0.2, omega (arith, a.0), a.0.4), OnQ2-mono c c' ps h a.1)

Ended-mono :
    {begin end c c' : ℕ}
    → c ≤ c'
    → (end ≡ 0) ⊎ ((begin ≤ end) × (end ≤ c))
    → (end ≡ 0) ⊎ ((begin ≤ end) × (end ≤ c'))
Ended-mono h (inl e) = inl e
Ended-mono h (inr (a, b)) = inr (a, omega (arith, h, b))

Served-mono : (c c' : ℕ) (ps : List MyPacket) → c ≤ c' → All (Served c) ps → All (Served c') ps
Served-mono c c' [] h a = tt
Served-mono c c' (p ∷ ps) h a = (
  (λ t. let x = a.0 t in (x.0, x.1, x.2, x.3, x.4, omega (arith, x), Ended-mono h x.6)),
  Served-mono c c' ps h a.1,
)

Timed-mono : (c c' : ℕ) (s : Emulation) → c ≤ c' → Timed c s → Timed c' s
Timed-mono c c' s h t = record {
  on_q1 = OnQ1-mono c c' s.q1 h t.on_q1;
  on_q2 = OnQ2-mono c c' s.q2 h t.on_q2;
  done = Served-mono c c' s.output_q h t.done;
}

Served-removed : (c : ℕ) (ps : List MyPacket) → All (Served c) (map removed ps)
Served-removed c [] = tt
Served-removed c (p ∷ ps) = ((λ e. absurd (omega (arith, e))), Served-removed c ps)

Served-ended :
    (c id now : ℕ) (ps : List MyPacket)
    → c ≤ now
    → All (Served c) ps
    → All
        (Served now)
        (map (λ p. if p.packet_id == id then record p { end_service_time = now } else p) ps)
Served-ended c id now [] h a = tt
Served-ended c id now (p ∷ ps) h a = elim (Bool-cases (p.packet_id == id)) [
  | inl this ↦ rw this (
    (λ t.
        let x = a.0 t in
        (x.0, x.1, x.2, x.3, x.4, omega (arith, x), inr (omega (arith, x), omega arith))),
    Served-ended c id now ps h a.1,
  )
  | inr other ↦ rw other (
    (λ t. let x = a.0 t in (x.0, x.1, x.2, x.3, x.4, omega (arith, x), Ended-mono h x.6)),
    Served-ended c id now ps h a.1,
  )
]

serve_q1-Timed :
    (c leave enter : ℕ) (q : List MyPacket) (s : Emulation)
    → s.q1 ≡ q
    → c ≤ leave
    → leave ≤ enter
    → Timed c s
    → Timed enter (serve_q1 leave enter q s)
unfolding serve_q1
serve_q1-Timed c leave enter [] s e h h' t = Timed-mono c enter s (omega arith) t
serve_q1-Timed c leave enter (p ∷ ps) s e h h' t =
    let later = Timed-mono c enter s (omega arith) t in
    let here : All (OnQ1 c) (p ∷ ps) = rw e at t.on_q1 in
    let rest : All (OnQ1 enter) (p ∷ ps) = rw e at later.on_q1 in
    let p' = record p { leave_q1_time = leave; enter_q2_time = enter } in
    elim (le_or_lt p.token_need s.cur_token_size) [
      | inl goes ↦ rw (le→leb p.token_need s.cur_token_size goes) (record {
        on_q1 = rest.1;
        on_q2 =
            All-append (OnQ2 enter) s.q2 (p' ∷ []) later.on_q2
              ((here.0.0, omega (arith, here.0), h', omega arith, here.0.2), tt);
        done = later.done;
      })
      | inr stays ↦ rw (gt→leb p.token_need s.cur_token_size stays) later
    ]

admit-Timed :
    (c : ℕ) (p : MyPacket) (enter1 leave enter2 : ℕ) (s : Emulation)
    → c ≤ enter1
    → p.arrive_time ≤ enter1
    → enter1 ≤ leave
    → leave ≤ enter2
    → p.end_service_time ≡ 0
    → Timed c s
    → Timed enter2 (admit p enter1 leave enter2 s)
unfolding admit
admit-Timed c p enter1 leave enter2 s h0 h1 h2 h3 new t =
    let p1 = record p { enter_q1_time = enter1 } in
    let p2 = record p { packet_type = 2 } in
    let next = Timed-mono c enter1 s h0 t in
    let end = Timed-mono c enter2 s (omega arith) t in
    elim (le_or_lt p.token_need s.b) [
      | inl fits ↦ rw (ge→ltb s.b p.token_need fits) (
          serve_q1-Timed enter1 leave enter2 (s.q1 ++ p1 ∷ []) (record s { q1 = s.q1 ++ p1 ∷ [] })
            refl h2 h3
            (record {
              on_q1 =
                  All-append (OnQ1 enter1) s.q1 (p1 ∷ []) next.on_q1 ((h1, omega arith, new), tt);
              on_q2 = next.on_q2;
              done = next.done;
            }))
      | inr large ↦ rw (lt→ltb s.b p.token_need large) (record {
        on_q1 = end.on_q1;
        on_q2 = end.on_q2;
        done =
            All-append (Served enter2) s.output_q (p2 ∷ []) end.done
              ((λ e. absurd (omega (arith, e))), tt);
      })
    ]

packet_section-Timed :
    (c : ℕ) (d : PacketData) (now enter1 leave enter2 : ℕ) (s : Emulation)
    → c ≤ now
    → now ≤ enter1
    → enter1 ≤ leave
    → leave ≤ enter2
    → Timed c s
    → Timed enter2 (packet_section d now enter1 leave enter2 s)
unfolding packet_section new_packet create_packet init_packet
packet_section-Timed c d now enter1 leave enter2 s h0 h1 h2 h3 t =
    elim (Bool-cases (s.input_q_size == 0)) [
      | inl over ↦ rw over (Timed-mono c enter2 s (omega arith) t)
      | inr more ↦ rw more (
          admit-Timed c (new_packet d now s) enter1 leave enter2 (arriving now s) (omega arith) h1
            h2 h3 refl (record { on_q1 = t.on_q1; on_q2 = t.on_q2; done = t.done }))
    ]

add_token-Timed :
    (c : ℕ) (s : Emulation) → Timed c s → Timed c (add_token s) × ((add_token s).q1 ≡ s.q1)
unfolding add_token
add_token-Timed c s t = elim (Bool-cases (leb s.b s.cur_token_size)) [
  | inl full ↦ rw full (record { on_q1 = t.on_q1; on_q2 = t.on_q2; done = t.done }, refl)
  | inr room ↦ rw room (record { on_q1 = t.on_q1; on_q2 = t.on_q2; done = t.done }, refl)
]

begin_service-Timed :
    (c : ℕ) (name : Server) (leave begin : ℕ) (q : List MyPacket) (s : Emulation)
    → s.q2 ≡ q
    → c ≤ leave
    → leave ≤ begin
    → Timed c s
    → Timed begin (begin_service name leave begin q s).1
unfolding begin_service
begin_service-Timed c name leave begin [] s e h h' t = Timed-mono c begin s (omega arith) t
begin_service-Timed c name leave begin (p ∷ ps) s e h h' t =
    let later = Timed-mono c begin s (omega arith) t in
    let here : All (OnQ2 c) (p ∷ ps) = rw e at t.on_q2 in
    let rest : All (OnQ2 begin) (p ∷ ps) = rw e at later.on_q2 in
    let x = here.0 in
    let p' = record p {
      leave_q2_time = leave;
      packet_type = 1;
      service_type = service_of name;
      begin_service_time = begin;
    } in
    record {
      on_q1 = later.on_q1;
      on_q2 = rest.1;
      done =
          All-append (Served begin) s.output_q (p' ∷ []) later.done
            ((λ ty. (x.0, x.1, x.2, omega (arith, x), h', omega arith, inl x.4)), tt);
    }

Step-Timed : {s t : System} → Step s t → Timed s.clock s.emu → Timed t.clock t.emu
unfolding server_section end_service signal_section token_section
Step-Timed {s} (arrive d now e1 l e2 _ a b c' d') t =
    packet_section-Timed s.clock d now e1 l e2 s.emu a b c' d' t
Step-Timed {s} (token l e a b) t =
    let (t', same) = add_token-Timed s.clock s.emu t in
    elim (Bool-cases (s.emu.input_q_size == 0 && is_nil s.emu.q1)) [
      | inl over ↦ rw over (Timed-mono s.clock e s.emu (omega arith) t)
      | inr more ↦ rw more (serve_q1-Timed s.clock l e s.emu.q1 (add_token s.emu) same a b t')
    ]
Step-Timed {s} (take name l b _ _ a c) t =
    begin_service-Timed s.clock name l b s.emu.q2 s.emu refl a c t
Step-Timed {s} (depart name id now _ a) t =
    let later = Timed-mono s.clock now s.emu a t in
    record {
      on_q1 = later.on_q1;
      on_q2 = later.on_q2;
      done = Served-ended s.clock id now s.emu.output_q a t.done;
    }
Step-Timed {s} signal t = record {
  on_q1 = tt;
  on_q2 = tt;
  done =
      All-append (Served s.clock) (s.emu.output_q ++ map removed s.emu.q1) (map removed s.emu.q2)
        (All-append (Served s.clock) s.emu.output_q (map removed s.emu.q1) t.done
          (Served-removed s.clock s.emu.q1))
        (Served-removed s.clock s.emu.q2);
}

-- In every state that the threads reach, in any order of their critical sections, the times of a packet
-- that a server took follow one another: arrival, entry into Q1, its leaving, entry into Q2, its leaving,
-- the begin of the service and, if it has ended, its end. So do those of the packets on Q1 and Q2, as far
-- as they have come, and none of these times is ahead of the clock.
pub Reach-Timed : (b num : ℕ) (s : System) → Reach b num s → Timed s.clock s.emu
Reach-Timed b num s begins = record { on_q1 = tt; on_q2 = tt; done = tt }
Reach-Timed b num s (goes_on r st) = Step-Timed st (Reach-Timed b num _ r)
