-- ===== src/Bucket/Tokens.antt =====
-- The tokens in the bucket, and the packet at the head of Q1.
use csci.Prelude.{
  lt→ltb, ap, All-append, ge→ltb, gt→leb, le→leb, le_or_lt, is_nil, inr, ◌&&◌, inl, Bool-cases, ◌-◌,
  refl, ◌==◌, ◌⊎◌, arith, [], ◌+◌, if◌then◌else◌, ◌≡◌, map, ◌∷◌, ◌<◌, ◌++◌, All, ◌≤◌, List, ℕ,
}
use csci.Bucket.Run.{signal, depart, take, token, arrive, Step, begins, goes_on, Reach, System}
use csci.Bucket.{
  arriving, PacketData, init_packet, create_packet, signal_section, service_of, Server, end_service,
  new_packet, packet_section, admit, begin_service, server_section, add_token, token_section,
  removed, MyPacket, serve_q1, Emulation,
}

-- The head of Q1 needs more tokens than there are.
abbrev pub Blocked : ℕ → List MyPacket → Type 0
Blocked c [] = Unit {0}
Blocked c (p ∷ ps) = c < p.token_need

-- A packet that the bucket can serve at some time.
abbrev pub Fits : ℕ → MyPacket → Type 0
Fits b p = (0 < p.token_need) × (p.token_need ≤ b)

-- The tokens that the packets of a list took.
abbrev pub spent : List MyPacket → ℕ
spent [] = 0
spent (p ∷ ps) = (if p.packet_type == 1 then p.token_need else 0) + spent ps

abbrev pub needs : List MyPacket → ℕ
needs [] = 0
needs (p ∷ ps) = p.token_need + needs ps

pub record Ready (s : Emulation) : Type 0 where
  pub bounded : s.cur_token_size ≤ s.b
  pub fits : All (Fits s.b) s.q1
  pub blocked : Blocked s.cur_token_size s.q1
  pub paid : s.token_drop_size + s.cur_token_size + needs s.q2 + spent s.output_q ≤ s.token_id

spent-append : (xs ys : List MyPacket) → spent (xs ++ ys) ≡ spent xs + spent ys
spent-append [] ys = omega arith
spent-append (x ∷ xs) ys = omega (arith, spent-append xs ys)

needs-append : (xs ys : List MyPacket) → needs (xs ++ ys) ≡ needs xs + needs ys
needs-append [] ys = omega arith
needs-append (x ∷ xs) ys = omega (arith, needs-append xs ys)

spent-removed : (xs : List MyPacket) → spent (map removed xs) ≡ 0
spent-removed [] = refl
spent-removed (x ∷ xs) = omega (arith, spent-removed xs)

spent-ended :
    (id now : ℕ) (xs : List MyPacket)
    → spent (map (λ p. if p.packet_id == id then record p { end_service_time = now } else p) xs)
      ≡ spent xs
spent-ended id now [] = refl
spent-ended id now (x ∷ xs) = ground (arith, spent-ended id now xs)

-- No packet but the head of the queue can go.
abbrev Next : ℕ → List MyPacket → Type 0
Next c [] = Unit {0}
Next c (p ∷ ps) = (c ≤ p.token_need) ⊎ (ps ≡ [])

Blocked-empty : (b c : ℕ) (ps : List MyPacket) → All (Fits b) ps → c ≡ 0 → Blocked c ps
Blocked-empty b c [] f e = tt
Blocked-empty b c (p ∷ ps) f e = omega (arith, f.0)

serve_q1-Ready :
    (leave enter : ℕ) (q : List MyPacket) (s : Emulation)
    → s.q1 ≡ q
    → s.cur_token_size ≤ s.b
    → All (Fits s.b) q
    → Next s.cur_token_size q
    → s.token_drop_size + s.cur_token_size + needs s.q2 + spent s.output_q ≤ s.token_id
    → Ready (serve_q1 leave enter q s)
unfolding serve_q1
serve_q1-Ready leave enter [] s e h f c n = record {
  bounded = h;
  fits = rw e tt;
  blocked = rw e tt;
  paid = n;
}
serve_q1-Ready leave enter (p ∷ ps) s e h f c n = elim (le_or_lt p.token_need s.cur_token_size) [
  | inl goes ↦ rw (le→leb p.token_need s.cur_token_size goes) (record {
    bounded = omega (arith, h);
    fits = f.1;
    blocked = rest c goes;
    paid = omega (
      arith,
      n,
      needs-append s.q2 (record p { leave_q1_time = leave; enter_q2_time = enter } ∷ []),
    );
  })
  | inr stays ↦
      rw (gt→leb p.token_need s.cur_token_size stays)
        (record { bounded = h; fits = rw e f; blocked = rw e stays; paid = n })
]
  where
    rest :
        (s.cur_token_size ≤ p.token_need) ⊎ (ps ≡ [])
        → p.token_need ≤ s.cur_token_size
        → Blocked (s.cur_token_size - p.token_need) ps
    rest (inl le) goes = Blocked-empty s.b (s.cur_token_size - p.token_need) ps f.1 (omega arith)
    rest (inr e) goes = rw e tt

add_token-Next : (s : Emulation) → Ready s → Next (add_token s).cur_token_size s.q1
unfolding add_token
add_token-Next s r = go s.q1 r.blocked
  where
    go : (q : List MyPacket) → Blocked s.cur_token_size q → Next (add_token s).cur_token_size q
    go [] h = tt
    go (p ∷ ps) h = inl (ground (arith, h))

-- The parts of the state that a token leaves alone, and the books after it.
add_token_rest :
    (s : Emulation)
    → Ready s
    → ((add_token s).b ≡ s.b)
      × ((add_token s).q1 ≡ s.q1)
      × ((add_token s).cur_token_size ≤ s.b)
      × ((add_token s).token_drop_size
            + (add_token s).cur_token_size
            + needs (add_token s).q2
            + spent (add_token s).output_q
          ≤ (add_token s).token_id)
unfolding add_token
add_token_rest s r = ground (arith, r.bounded, r.paid)

token_section-Ready :
    (leave enter : ℕ) (s : Emulation) → Ready s → Ready (token_section leave enter s)
unfolding token_section
token_section-Ready leave enter s r =
    let (same_b, same_q1, bounded, paid) = add_token_rest s r in
    elim (Bool-cases (s.input_q_size == 0 && is_nil s.q1)) [
      | inl over ↦ rw over r
      | inr more ↦ rw more (
          serve_q1-Ready leave enter s.q1 (add_token s) same_q1 (rw same_b bounded)
            (rw same_b r.fits) (add_token-Next s r) paid)
    ]

-- A packet that arrives goes to outputQ, or behind the others on Q1; it can go on at once only if it is
-- the only one there.
arrival-Next : (c : ℕ) (p : MyPacket) (q : List MyPacket) → Blocked c q → Next c (q ++ p ∷ [])
arrival-Next c p [] h = inr refl
arrival-Next c p (x ∷ xs) h = inl (omega arith)

admit-Ready :
    (p : MyPacket) (enter1 leave enter2 : ℕ) (s : Emulation)
    → 0 < p.token_need
    → p.packet_type ≡ 0
    → Ready s
    → Ready (admit p enter1 leave enter2 s)
unfolding admit
admit-Ready p enter1 leave enter2 s pos new r = elim (le_or_lt p.token_need s.b) [
  | inl fits ↦
      let p1 = record p { enter_q1_time = enter1 } in
      rw (ge→ltb s.b p.token_need fits) (
        serve_q1-Ready leave enter2 (s.q1 ++ p1 ∷ []) (record s { q1 = s.q1 ++ p1 ∷ [] }) refl
          r.bounded (All-append (Fits s.b) s.q1 (p1 ∷ []) r.fits ((pos, fits), tt))
          (arrival-Next s.cur_token_size p1 s.q1 r.blocked) r.paid)
  | inr large ↦
      let p2 = record p { packet_type = 2 } in
      rw (lt→ltb s.b p.token_need large) (record {
        bounded = r.bounded;
        fits = r.fits;
        blocked = r.blocked;
        paid = omega (arith, r.paid, spent-append s.output_q (p2 ∷ []));
      })
]

packet_section-Ready :
    (d : PacketData) (now enter1 leave enter2 : ℕ) (s : Emulation)
    → 0 < d.token_need
    → Ready s
    → Ready (packet_section d now enter1 leave enter2 s)
unfolding packet_section new_packet create_packet init_packet
packet_section-Ready d now enter1 leave enter2 s pos r = elim (Bool-cases (s.input_q_size == 0)) [
  | inl over ↦ rw over r
  | inr more ↦ rw more (
      admit-Ready (new_packet d now s) enter1 leave enter2 (arriving now s) pos refl
        (record { bounded = r.bounded; fits = r.fits; blocked = r.blocked; paid = r.paid }))
]

begin_service-Ready :
    (name : Server) (leave begin : ℕ) (q : List MyPacket) (s : Emulation)
    → s.q2 ≡ q
    → Ready s
    → Ready (begin_service name leave begin q s).1
unfolding begin_service
begin_service-Ready name leave begin [] s e r = r
begin_service-Ready name leave begin (p ∷ ps) s e r =
    let p' = record p {
      leave_q2_time = leave;
      packet_type = 1;
      service_type = service_of name;
      begin_service_time = begin;
    } in
    record {
      bounded = r.bounded;
      fits = r.fits;
      blocked = r.blocked;
      paid = omega (arith, r.paid, ap needs e, spent-append s.output_q (p' ∷ []));
    }

-- Every step of every thread keeps the books.
Step-Ready : {s t : System} → Step s t → Ready s.emu → Ready t.emu
unfolding server_section end_service signal_section
Step-Ready {s} (arrive d now e1 l e2 pos _ _ _ _) r = packet_section-Ready d now e1 l e2 s.emu pos r
Step-Ready {s} (token l e _ _) r = token_section-Ready l e s.emu r
Step-Ready {s} (take name l b _ _ _ _) r = begin_service-Ready name l b s.emu.q2 s.emu refl r
Step-Ready {s} (depart name id now _ _) r = record {
  bounded = r.bounded;
  fits = r.fits;
  blocked = r.blocked;
  paid = omega (arith, r.paid, spent-ended id now s.emu.output_q);
}
Step-Ready {s} signal r = record {
  bounded = r.bounded;
  fits = tt;
  blocked = tt;
  paid = omega (
    arith,
    r.paid,
    spent-append (s.emu.output_q ++ map removed s.emu.q1) (map removed s.emu.q2),
    spent-append s.emu.output_q (map removed s.emu.q1),
    spent-removed s.emu.q1,
    spent-removed s.emu.q2,
  );
}

-- In every state that the threads reach, in any order of their critical sections, the bucket holds at
-- most B tokens; each packet on Q1 needs some tokens and at most B; the packet at the head of Q1 needs
-- more tokens than there are; and the tokens that were dropped, that are in the bucket and that the
-- packets on Q2 and the served packets took are no more than those that arrived.
pub Reach-Ready : (b num : ℕ) (s : System) → Reach b num s → Ready s.emu
Reach-Ready b num s begins = record {
  bounded = omega arith;
  fits = tt;
  blocked = tt;
  paid = omega arith;
}
Reach-Ready b num s (goes_on r st) = Step-Ready st (Reach-Ready b num _ r)
