-- ===== src/Bucket/Progress.antt =====
-- What the threads get done: the head of Q1 is served, and a signal ends every loop.
use csci.Bucket.{
  end_service, server_waits, begin_service, server_goes_on, tokens_go_on, add_token, server_section,
  serve_q1, packets_go_on, token_section, MyPacket, signal_section, Emulation, packet_section,
}
use csci.Bucket.Tokens.{Fits, Ready}
use csci.Bucket.Run.{signal, depart, take, token, arrive, Step, System}
use csci.Prelude.{
  sym, none, gt→leb, arith, is_nil, ◌∙◌, le→leb, ◌==◌, ap, refl, All, leb, ◌<◌, true, ◌++◌, length,
  false, ◌≤◌, [], ◌∷◌, ◌≡◌, ◌&&◌, ◌+◌, Bool, List, ℕ,
}
use mathlib.Core.Path.{subst}

-- A number of token sections in a row, each with its two readings of the clock.
abbrev pub token_sections : List (ℕ × ℕ) → Emulation → Emulation
token_sections [] s = s
token_sections (t ∷ ts) s = token_sections ts (token_section t.0 t.1 s)

-- Between `s` and `s'` the packet `p`, with `ps` behind it on Q1, went to the end of Q2, and took all tokens.
abbrev pub HeadServed : MyPacket → List MyPacket → Emulation → Emulation → Type 0
HeadServed p ps s s' =
    (p' : MyPacket) × (p'.packet_id ≡ p.packet_id)
    × (s'.q1 ≡ ps)
    × (s'.q2 ≡ s.q2 ++ p' ∷ [])
    × (s'.cur_token_size ≡ 0)

-- The state after one more token in the bucket.
abbrev with_token : Emulation → Emulation
with_token s = record s { token_id = s.token_id + 1; cur_token_size = s.cur_token_size + 1 }

and_false : (b : Bool) → (b && false) ≡ false
and_false true = refl
and_false false = refl

module _ (p : MyPacket) (ps : List MyPacket) where
  -- A token for a bucket that is not full, with `p` at the head of Q1.
  token_adds :
      (leave enter : ℕ) (s : Emulation)
      → s.q1 ≡ p ∷ ps
      → s.cur_token_size < s.b
      → token_section leave enter s ≡ serve_q1 leave enter (p ∷ ps) (with_token s)
  unfolding token_section add_token
  token_adds leave enter s e room =
      rw (ap (λ q. s.input_q_size == 0 && is_nil q) e ∙ and_false (s.input_q_size == 0))
        (rw (gt→leb s.b s.cur_token_size room) (ap (λ q. serve_q1 leave enter q (with_token s)) e))

  -- The packet at the head of Q1 needs `n + 1` tokens more than there are.
  head_served :
      (ts : List (ℕ × ℕ)) (t : ℕ × ℕ) (s : Emulation)
      → s.q1 ≡ p ∷ ps
      → p.token_need ≤ s.b
      → s.cur_token_size + length ts + 1 ≡ p.token_need
      → HeadServed p ps s (token_sections (t ∷ ts) s)
  unfolding serve_q1
  head_served [] t s e fits n =
      let goes : leb p.token_need (s.cur_token_size + 1) ≡ true =
        le→leb p.token_need (s.cur_token_size + 1) (omega (arith, n)) in
      (
        record p { leave_q1_time = t.0; enter_q2_time = t.1 },
        refl,
        rw (token_adds t.0 t.1 s e (omega (arith, n))) (rw goes refl),
        rw (token_adds t.0 t.1 s e (omega (arith, n))) (rw goes refl),
        rw (token_adds t.0 t.1 s e (omega (arith, n))) (rw goes (omega (arith, n))),
      )
  head_served (u ∷ ts) t s e fits n =
      let waits : leb p.token_need (s.cur_token_size + 1) ≡ false =
        gt→leb p.token_need (s.cur_token_size + 1) (omega (arith, n)) in
      let one : token_section t.0 t.1 s ≡ with_token s =
        token_adds t.0 t.1 s e (omega (arith, n)) ∙ rw waits refl in
      subst (λ x. HeadServed p ps s (token_sections (u ∷ ts) x)) (sym one)
        (head_served ts u (with_token s) e fits (omega (arith, n)))

-- The packet at the head of Q1 is moved to Q2 by the token that makes up what it needs: after as many
-- token sections as it lacks tokens, it is at the end of Q2, it has left Q1, and the bucket is empty.
-- It is assumed that the bucket holds fewer tokens than it needs, and B at least as many.
pub token_sections-serve :
    (t : ℕ × ℕ) (ts : List (ℕ × ℕ)) (p : MyPacket) (ps : List MyPacket) (s : Emulation)
    → Ready s
    → s.q1 ≡ p ∷ ps
    → s.cur_token_size + length (t ∷ ts) ≡ p.token_need
    → HeadServed p ps s (token_sections (t ∷ ts) s)
token_sections-serve t ts p ps s r e n =
    let fits : All (Fits s.b) (p ∷ ps) = rw e at r.fits in
    head_served p ps ts t s e fits.0.1 (omega (arith, n))

-- Steps from a state on.
pub data Runs (s : System) : System → Type 0 where
  still : Runs s s
  further : {t u : System} → Runs s t → Step t u → Runs s u

-- No thread has anything left to do.
pub record Stopped (s : Emulation) : Type 0 where
  pub no_input : s.input_q_size ≡ 0
  pub no_q1 : s.q1 ≡ []
  pub no_q2 : s.q2 ≡ []

Step-Stopped :
    {s t : System}
    → Step s t
    → Stopped s.emu
    → Stopped t.emu × (t.emu.packet_id ≡ s.emu.packet_id) × (t.emu.token_id ≡ s.emu.token_id)
unfolding packet_section token_section server_section begin_service end_service signal_section
Step-Stopped {s} (arrive d now e1 l e2 _ _ _ _ _) h =
    let over : (s.emu.input_q_size == 0) ≡ true = rw h.no_input refl in rw over (h, refl, refl)
Step-Stopped {s} (token l e _ _) h =
    let over : (s.emu.input_q_size == 0 && is_nil s.emu.q1) ≡ true =
      rw (h.no_input, h.no_q1) refl in
    rw over (h, refl, refl)
Step-Stopped {s} (take name l b _ _ _ _) h =
    let same : begin_service name l b s.emu.q2 s.emu ≡ (none, s.emu) =
      ap (λ q. begin_service name l b q s.emu) h.no_q2 in
    rw same (h, refl, refl)
Step-Stopped {s} (depart name id now _ _) h =
    (record { no_input = h.no_input; no_q1 = h.no_q1; no_q2 = h.no_q2 }, refl, refl)
Step-Stopped {s} signal h = (record { no_input = refl; no_q1 = refl; no_q2 = refl }, refl, refl)

-- After the signal no packet and no token arrives any more, whatever the threads do, and the loops of
-- all threads end: their conditions are false, and no server waits for the condition variable.
pub signal-stops :
    (s t : System)
    → Runs (record s { emu = signal_section s.emu }) t
    → (t.emu.packet_id ≡ s.emu.packet_id)
      × (t.emu.token_id ≡ s.emu.token_id)
      × (packets_go_on t.emu ≡ false)
      × (tokens_go_on t.emu ≡ false)
      × (server_goes_on t.emu ≡ false)
      × (server_waits t.emu ≡ false)
unfolding signal_section packets_go_on tokens_go_on server_goes_on server_waits
signal-stops s t r =
    let (h, a, b) = stays r in
    let none_q1 : is_nil t.emu.q1 ≡ true = ap is_nil h.no_q1 in
    let none_q2 : is_nil t.emu.q2 ≡ true = ap is_nil h.no_q2 in
    (
      a,
      b,
      ground (arith, h.no_input),
      ground (arith, h.no_input, none_q1),
      ground (arith, h.no_input, none_q1, none_q2),
      ground (arith, h.no_input, none_q1, none_q2),
    )
  where
    stays :
        {u : System}
        → Runs (record s { emu = signal_section s.emu }) u
        → Stopped u.emu × (u.emu.packet_id ≡ s.emu.packet_id) × (u.emu.token_id ≡ s.emu.token_id)
    stays still = (record { no_input = refl; no_q1 = refl; no_q2 = refl }, refl, refl)
    stays (further r st) =
        let (h, a, b) = stays r in let (h', a', b') = Step-Stopped st h in (h', a' ∙ a, b' ∙ b)
