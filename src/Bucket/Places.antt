-- ===== src/Bucket/Places.antt =====
-- Where the packets are.
use csci.Prelude.{
  lt→ltb, ◌≤◌, ge→ltb, inr, inl, ◌∙◌, leb, is_nil, le_or_lt, refl, ltb, ◌&&◌, ap, if◌then◌else◌,
  ◌==◌, arith, [], ◌∷◌, Bool-cases, ◌+◌, ◌++◌, map, ◌≡◌, List, ℕ,
}
use csci.Bucket.Run.{signal, depart, begins, take, token, arrive, goes_on, Step, Reach, System}
use csci.Bucket.{
  arriving, PacketData, service_of, init_packet, removed, create_packet, signal_section, Emulation,
  Server, new_packet, end_service, MyPacket, admit, server_section, packet_section, serve_q1,
  token_section, add_token, begin_service,
}

-- How many packets of a list have the id `i`.
abbrev pub with_id : ℕ → List MyPacket → ℕ
with_id i [] = 0
with_id i (p ∷ ps) = (if p.packet_id == i then 1 else 0) + with_id i ps

abbrev pub places : ℕ → Emulation → ℕ
places i s = with_id i s.q1 + with_id i s.q2 + with_id i s.output_q

-- What is said of a state in which `num` packets were to come.
pub record Placed (num : ℕ) (s : Emulation) : Type 0 where
  pub one_place : (i : ℕ) → places i s ≡ (if ltb 0 i && leb i s.packet_id then 1 else 0)
  pub arrived : s.packet_id + s.input_q_size ≤ num

with_id-append :
    (i : ℕ) (xs ys : List MyPacket) → with_id i (xs ++ ys) ≡ with_id i xs + with_id i ys
with_id-append i [] ys = omega arith
with_id-append i (x ∷ xs) ys = omega (arith, with_id-append i xs ys)

with_id-removed : (i : ℕ) (xs : List MyPacket) → with_id i (map removed xs) ≡ with_id i xs
with_id-removed i [] = refl
with_id-removed i (x ∷ xs) = omega (arith, with_id-removed i xs)

with_id-ended :
    (i id now : ℕ) (xs : List MyPacket)
    → with_id i (map (λ p. if p.packet_id == id then record p { end_service_time = now } else p) xs)
      ≡ with_id i xs
with_id-ended i id now [] = refl
with_id-ended i id now (x ∷ xs) = ground (arith, with_id-ended i id now xs)

serve_q1-places :
    (leave enter : ℕ) (q : List MyPacket) (s : Emulation) (i : ℕ)
    → s.q1 ≡ q
    → places i (serve_q1 leave enter q s) ≡ places i s
unfolding serve_q1
serve_q1-places leave enter [] s i e = refl
serve_q1-places leave enter (p ∷ ps) s i e = ground (
  arith,
  ap (with_id i) e,
  with_id-append i s.q2 (record p { leave_q1_time = leave; enter_q2_time = enter } ∷ []),
)

-- The counters that moving a packet from Q1 to Q2 leaves alone.
serve_q1_counters :
    (leave enter : ℕ) (q : List MyPacket) (s : Emulation)
    → ((serve_q1 leave enter q s).packet_id ≡ s.packet_id)
      × ((serve_q1 leave enter q s).input_q_size ≡ s.input_q_size)
unfolding serve_q1
serve_q1_counters leave enter [] s = (refl, refl)
serve_q1_counters leave enter (p ∷ ps) s = ground arith

admit-places :
    (p : MyPacket) (enter1 leave enter2 : ℕ) (s : Emulation) (i : ℕ)
    → places i (admit p enter1 leave enter2 s) ≡ places i s + (if p.packet_id == i then 1 else 0)
unfolding admit
admit-places p enter1 leave enter2 s i = elim (le_or_lt p.token_need s.b) [
  | inl fits ↦
      let p1 = record p { enter_q1_time = enter1 } in
      rw (ge→ltb s.b p.token_need fits) (
        serve_q1-places leave enter2 (s.q1 ++ p1 ∷ []) (record s { q1 = s.q1 ++ p1 ∷ [] }) i refl
        ∙ omega (arith, with_id-append i s.q1 (p1 ∷ [])))
  | inr large ↦
      rw (lt→ltb s.b p.token_need large)
        (omega (arith, with_id-append i s.output_q (record p { packet_type = 2 } ∷ [])))
]

admit_counters :
    (p : MyPacket) (enter1 leave enter2 : ℕ) (s : Emulation)
    → ((admit p enter1 leave enter2 s).packet_id ≡ s.packet_id)
      × ((admit p enter1 leave enter2 s).input_q_size ≡ s.input_q_size)
unfolding admit
admit_counters p enter1 leave enter2 s =
    let q1' = s.q1 ++ record p { enter_q1_time = enter1 } ∷ [] in
    ground (arith, serve_q1_counters leave enter2 q1' (record s { q1 = q1' }))

packet_section-Placed :
    (num : ℕ) (d : PacketData) (now enter1 leave enter2 : ℕ) (s : Emulation)
    → Placed num s
    → Placed num (packet_section d now enter1 leave enter2 s)
unfolding packet_section new_packet create_packet init_packet
packet_section-Placed num d now enter1 leave enter2 s r = elim (Bool-cases (s.input_q_size == 0)) [
  | inl over ↦ rw over r
  | inr more ↦
      let p = new_packet d now s in
      let s' = arriving now s in
      let (id, size) = admit_counters p enter1 leave enter2 s' in
      rw more (record {
        one_place =
            λ i. admit-places p enter1 leave enter2 s' i ∙ rw id (ground (arith, r.one_place i));
        arrived = rw (id, size) (ground (arith, r.arrived));
      })
]

add_token-places :
    (s : Emulation)
    → ((add_token s).packet_id ≡ s.packet_id)
      × ((add_token s).input_q_size ≡ s.input_q_size)
      × ((add_token s).q1 ≡ s.q1)
      × ((i : ℕ) → places i (add_token s) ≡ places i s)
unfolding add_token
add_token-places s = (ground arith, ground arith, ground arith, λ i. ground arith)

token_section-Placed :
    (num leave enter : ℕ) (s : Emulation) → Placed num s → Placed num (token_section leave enter s)
unfolding token_section
token_section-Placed num leave enter s r =
    let (id, size, same_q1, same) = add_token-places s in
    let (id', size') = serve_q1_counters leave enter s.q1 (add_token s) in
    elim (Bool-cases (s.input_q_size == 0 && is_nil s.q1)) [
      | inl over ↦ rw over r
      | inr more ↦ rw more (record {
        one_place = λ i.
            serve_q1-places leave enter s.q1 (add_token s) i same_q1
            ∙ same i
            ∙ rw (id', id) (r.one_place i);
        arrived = rw (id', size', id, size) r.arrived;
      })
    ]

begin_service-Placed :
    (num : ℕ) (name : Server) (leave begin : ℕ) (q : List MyPacket) (s : Emulation)
    → s.q2 ≡ q
    → Placed num s
    → Placed num (begin_service name leave begin q s).1
unfolding begin_service
begin_service-Placed num name leave begin [] s e r = r
begin_service-Placed num name leave begin (p ∷ ps) s e r =
    let p' = record p {
      leave_q2_time = leave;
      packet_type = 1;
      service_type = service_of name;
      begin_service_time = begin;
    } in
    record {
      one_place = λ i.
          omega (arith, r.one_place i, ap (with_id i) e, with_id-append i s.output_q (p' ∷ []))
          ∙ r.one_place i;
      arrived = r.arrived;
    }

Step-Placed : {s t : System} (num : ℕ) → Step s t → Placed num s.emu → Placed num t.emu
unfolding server_section end_service signal_section
Step-Placed {s} num (arrive d now e1 l e2 _ _ _ _ _) r =
    packet_section-Placed num d now e1 l e2 s.emu r
Step-Placed {s} num (token l e _ _) r = token_section-Placed num l e s.emu r
Step-Placed {s} num (take name l b _ _ _ _) r =
    begin_service-Placed num name l b s.emu.q2 s.emu refl r
Step-Placed {s} num (depart name id now _ _) r = record {
  one_place = λ i. rw (with_id-ended i id now s.emu.output_q) (r.one_place i);
  arrived = r.arrived;
}
Step-Placed {s} num signal r = record {
  one_place = λ i.
      omega (
        arith,
        with_id-append i (s.emu.output_q ++ map removed s.emu.q1) (map removed s.emu.q2),
        with_id-append i s.emu.output_q (map removed s.emu.q1),
        with_id-removed i s.emu.q1,
        with_id-removed i s.emu.q2,
      )
      ∙ r.one_place i;
  arrived = omega (arith, r.arrived);
}

-- In every state that the threads reach, in any order of their critical sections, each packet that has
-- arrived is in exactly one place on Q1, Q2 or outputQ, no packet that has not arrived is on any, and no
-- more than `num` packets arrive.
pub Reach-Placed : (b num : ℕ) (s : System) → Reach b num s → Placed num s.emu
Reach-Placed b num s begins = record { one_place = λ i. ground arith; arrived = omega arith }
Reach-Placed b num s (goes_on r st) = Step-Placed num st (Reach-Placed b num _ r)
