-- ===== src/Bucket/Fifo.antt =====
-- The order of the packets: first in, first out, up to their service.
use csci.Bucket.Run.{signal, depart, take, token, arrive, begins, Step, goes_on, Reach, System}
use csci.Prelude.{
  is_nil, ◌&&◌, Bool-cases, lt→ltb, gt→leb, ge→ltb, inr, sym, ◌∙◌, le→leb, ap, ◌==◌, refl, inl, [],
  le_or_lt, if◌then◌else◌, ◌<◌, ◌≡◌, arith, ◌∷◌, map, ◌+◌, ◌≤◌, ◌++◌, List, ℕ,
}
use csci.Bucket.{
  arriving, PacketData, init_packet, create_packet, service_of, signal_section, Server, new_packet,
  end_service, token_section, server_section, packet_section, add_token, begin_service, removed,
  MyPacket, admit, serve_q1, Emulation,
}
use mathlib.Core.List.{append_assoc, append-nil}

abbrev pub ids : List MyPacket → List ℕ
ids [] = []
ids (p ∷ ps) = p.packet_id ∷ ids ps

-- The packets that a server took, in the order of outputQ.
abbrev pub served : List MyPacket → List MyPacket
served [] = []
served (p ∷ ps) = if p.packet_type == 1 then p ∷ served ps else served ps

-- Numbers that rise, from above `lo` to at most `hi`.
abbrev pub Rising : ℕ → ℕ → List ℕ → Type 0
Rising lo hi [] = lo ≤ hi
Rising lo hi (x ∷ xs) = (lo < x) × Rising x hi xs

-- The packets that were served, and those that are to be, in the order of their turn.
abbrev pub line : Emulation → List ℕ
line s = ids (served s.output_q) ++ (ids s.q2 ++ ids s.q1)

Rising-append :
    (lo hi : ℕ) (xs : List ℕ) → Rising lo hi xs → Rising lo (hi + 1) (xs ++ (hi + 1) ∷ [])
Rising-append lo hi [] r = (omega arith, omega arith)
Rising-append lo hi (x ∷ xs) r = (r.0, Rising-append x hi xs r.1)

Rising-mono : (lo hi : ℕ) (xs : List ℕ) → Rising lo hi xs → Rising lo (hi + 1) xs
Rising-mono lo hi [] r = omega arith
Rising-mono lo hi (x ∷ xs) r = (r.0, Rising-mono x hi xs r.1)

Rising-le : (lo hi : ℕ) (xs : List ℕ) → Rising lo hi xs → lo ≤ hi
Rising-le lo hi [] r = r
Rising-le lo hi (x ∷ xs) r = omega (arith, Rising-le x hi xs r.1)

Rising-prefix : (lo hi : ℕ) (xs ys : List ℕ) → Rising lo hi (xs ++ ys) → Rising lo hi xs
Rising-prefix lo hi [] ys r = Rising-le lo hi ys r
Rising-prefix lo hi (x ∷ xs) ys r = (r.0, Rising-prefix x hi xs ys r.1)

ids-append : (xs ys : List MyPacket) → ids (xs ++ ys) ≡ ids xs ++ ids ys
ids-append [] ys = refl
ids-append (x ∷ xs) ys = rw (ids-append xs ys)

served-append : (xs ys : List MyPacket) → served (xs ++ ys) ≡ served xs ++ served ys
served-append [] ys = refl
served-append (x ∷ xs) ys = ground (arith, served-append xs ys)

served-removed : (xs : List MyPacket) → served (map removed xs) ≡ []
served-removed [] = refl
served-removed (x ∷ xs) = served-removed xs

served-ended :
    (id now : ℕ) (xs : List MyPacket)
    → ids (
        served (map (λ p. if p.packet_id == id then record p { end_service_time = now } else p) xs))
      ≡ ids (served xs)
served-ended id now [] = refl
served-ended id now (x ∷ xs) = ground (arith, served-ended id now xs)

-- Moving the head of Q1 keeps the line.
serve_q1-line :
    (leave enter : ℕ) (q : List MyPacket) (s : Emulation)
    → s.q1 ≡ q
    → (line (serve_q1 leave enter q s) ≡ line s)
      × ((serve_q1 leave enter q s).packet_id ≡ s.packet_id)
unfolding serve_q1
serve_q1-line leave enter [] s e = (refl, refl)
serve_q1-line leave enter (p ∷ ps) s e = elim (le_or_lt p.token_need s.cur_token_size) [
  | inl goes ↦ rw (le→leb p.token_need s.cur_token_size goes) (
    ap (λ l. ids (served s.output_q) ++ l)
        (ap (λ l. l ++ ids ps)
            (ids-append s.q2 (record p { leave_q1_time = leave; enter_q2_time = enter } ∷ []))
          ∙ append_assoc (ids s.q2) (p.packet_id ∷ []) (ids ps)
          ∙ ap (λ q. ids s.q2 ++ ids q) (sym e)),
    refl,
  )
  | inr stays ↦ rw (gt→leb p.token_need s.cur_token_size stays) (refl, refl)
]

abbrev pub InOrder : Emulation → Type 0
InOrder s = Rising 0 s.packet_id (line s)

-- A packet that arrives is dropped, or goes to the end of the line.
admit-InOrder :
    (p : MyPacket) (enter1 leave enter2 : ℕ) (s : Emulation) (n : ℕ)
    → p.packet_id ≡ n + 1
    → s.packet_id ≡ n + 1
    → Rising 0 n (line s)
    → InOrder (admit p enter1 leave enter2 s)
unfolding admit
admit-InOrder p enter1 leave enter2 s n e id r = elim (le_or_lt p.token_need s.b) [
  | inl fits ↦
      let p1 = record p { enter_q1_time = enter1 } in
      let s' = record s { q1 = s.q1 ++ p1 ∷ [] } in
      let longer : line s' ≡ line s ++ (n + 1) ∷ [] =
        ap (λ l. ids (served s.output_q) ++ (ids s.q2 ++ l)) (ids-append s.q1 (p1 ∷ []) ∙ rw e refl)
        ∙ ap (λ l. ids (served s.output_q) ++ l)
            (sym (append_assoc (ids s.q2) (ids s.q1) ((n + 1) ∷ [])))
        ∙ sym (append_assoc (ids (served s.output_q)) (ids s.q2 ++ ids s.q1) ((n + 1) ∷ [])) in
      let (same, kept) = serve_q1-line leave enter2 (s.q1 ++ p1 ∷ []) s' refl in
      rw (ge→ltb s.b p.token_need fits) (rw (same, kept, longer, id) (Rising-append 0 n (line s) r))
  | inr large ↦ rw (lt→ltb s.b p.token_need large) (
      rw
        (
          served-append s.output_q (record p { packet_type = 2 } ∷ []),
          append-nil (served s.output_q),
          id,
        )
        (Rising-mono 0 n (line s) r))
]

packet_section-InOrder :
    (d : PacketData) (now enter1 leave enter2 : ℕ) (s : Emulation)
    → InOrder s
    → InOrder (packet_section d now enter1 leave enter2 s)
unfolding packet_section new_packet create_packet init_packet
packet_section-InOrder d now enter1 leave enter2 s r = elim (Bool-cases (s.input_q_size == 0)) [
  | inl over ↦ rw over r
  | inr more ↦ rw more (
      admit-InOrder (new_packet d now s) enter1 leave enter2 (arriving now s) s.packet_id refl refl
        r)
]

add_token-line :
    (s : Emulation) → (line (add_token s) ≡ line s) × ((add_token s).packet_id ≡ s.packet_id)
unfolding add_token
add_token-line s = ground arith

token_section-InOrder :
    (leave enter : ℕ) (s : Emulation) → InOrder s → InOrder (token_section leave enter s)
unfolding token_section
token_section-InOrder leave enter s r =
    let (same, kept) = serve_q1-line leave enter s.q1 (add_token s) (same_q1 s) in
    let (same', kept') = add_token-line s in
    elim (Bool-cases (s.input_q_size == 0 && is_nil s.q1)) [
      | inl over ↦ rw over r
      | inr more ↦ rw more (rw (same, kept, same', kept') r)
    ]
  where
    same_q1 : (s : Emulation) → (add_token s).q1 ≡ s.q1
    same_q1 s = ground arith

begin_service-InOrder :
    (name : Server) (leave begin : ℕ) (q : List MyPacket) (s : Emulation)
    → s.q2 ≡ q
    → InOrder s
    → InOrder (begin_service name leave begin q s).1
unfolding begin_service
begin_service-InOrder name leave begin [] s e r = r
begin_service-InOrder name leave begin (p ∷ ps) s e r =
    let p' = record p {
      leave_q2_time = leave;
      packet_type = 1;
      service_type = service_of name;
      begin_service_time = begin;
    } in
    let moved : ids (served (s.output_q ++ p' ∷ [])) ++ (ids ps ++ ids s.q1) ≡ line s =
      ap (λ l. ids l ++ (ids ps ++ ids s.q1)) (served-append s.output_q (p' ∷ []))
      ∙ ap (λ l. l ++ (ids ps ++ ids s.q1)) (ids-append (served s.output_q) (p' ∷ []))
      ∙ append_assoc (ids (served s.output_q)) (p.packet_id ∷ []) (ids ps ++ ids s.q1)
      ∙ ap (λ q. ids (served s.output_q) ++ (ids q ++ ids s.q1)) (sym e) in
    rw moved r

Step-InOrder : {s t : System} → Step s t → InOrder s.emu → InOrder t.emu
unfolding server_section end_service signal_section
Step-InOrder {s} (arrive d now e1 l e2 _ _ _ _ _) r = packet_section-InOrder d now e1 l e2 s.emu r
Step-InOrder {s} (token l e _ _) r = token_section-InOrder l e s.emu r
Step-InOrder {s} (take name l b _ _ _ _) r = begin_service-InOrder name l b s.emu.q2 s.emu refl r
Step-InOrder {s} (depart name id now _ _) r = rw (served-ended id now s.emu.output_q) r
Step-InOrder {s} signal r =
    let out = s.emu.output_q in
    let same : served ((out ++ map removed s.emu.q1) ++ map removed s.emu.q2) ≡ served out =
      served-append (out ++ map removed s.emu.q1) (map removed s.emu.q2)
      ∙ ap (λ l. served (out ++ map removed s.emu.q1) ++ l) (served-removed s.emu.q2)
      ∙ append-nil (served (out ++ map removed s.emu.q1))
      ∙ served-append out (map removed s.emu.q1)
      ∙ ap (λ l. served out ++ l) (served-removed s.emu.q1)
      ∙ append-nil (served out) in
    rw (same, append-nil (ids (served out)))
      (Rising-prefix 0 s.emu.packet_id (ids (served out)) (ids s.emu.q2 ++ ids s.emu.q1) r)

-- In every state that the threads reach, in any order of their critical sections, the packets that
-- the servers took, in the order in which they took them, then those on Q2, then those on Q1, stand in
-- the order in which they arrived: packets are served first in, first out.
pub Reach-InOrder : (b num : ℕ) (s : System) → Reach b num s → InOrder s.emu
Reach-InOrder b num s begins = omega arith
Reach-InOrder b num s (goes_on r st) = Step-InOrder st (Reach-InOrder b num _ r)
