-- ===== src/Pframe/Pinned.antt =====
-- pframe_pin and pframe_unpin: a frame in use is on the list that its pin count says.
use csci.Prelude.{
  lt→ltb, ◌-◌, ◌<◌, refl, inr, length-append, [], ◌∷◌, ◌++◌, arith, true, inl, Bool-cases, ◌==◌,
  if◌then◌else◌, length, ◌+◌, false, ◌≡◌, ℕ,
}
use csci.Sched.{update, erase, has}
use csci.Prelude.Outcome.{done}
use csci.Sched.Queues.{length-erase, count-append, count-erase, has_of_count, count}
use csci.Pframe.{to_allocated, pframe_unpin, to_pinned, pframe_pin, Pframes}

-- What the invariant says of one frame.
abbrev pub Stands : Pframes → ℕ → Type 0
Stands s t =
    (s.is_free t ≡ false → count t s.alloc_list ≡ (if s.pf_pincount t == 0 then 1 else 0))
    × (count t s.pinned_list ≡ (if s.pf_pincount t == 0 then 0 else 1))

abbrev pub IsKept : Pframes → Type 0
IsKept s =
    ((t : ℕ) → Stands s t)
    × (s.nallocated ≡ length s.alloc_list)
    × (s.npinned ≡ length s.pinned_list)

-- What a step from `s` to `s'` that leaves `pf` with pin count `n` does.
abbrev pub Pins : ℕ → ℕ → Pframes → Pframes → Type 0
Pins pf n s s' =
    IsKept s' × (s'.pf_pincount pf ≡ n) × (s'.nallocated + s'.npinned ≡ s.nallocated + s.npinned)

-- The state with `n` pins on `pf`.
abbrev pins : ℕ → ℕ → Pframes → Pframes
pins pf n s = record s { pf_pincount = update s.pf_pincount pf n }

module _ (pf : ℕ) (s : Pframes) (kept : IsKept s) (used : s.is_free pf ≡ false) where
  -- Where a frame in use is on the list that its pin count says, and the counters are the lengths of the
  -- lists, pframe_pin of a frame in use returns with one pin more and as many frames in all, and the
  -- lists and counters stay right.
  pub pframe_pin-Pins :
      (s' : Pframes) × (pframe_pin pf s ≡ done s') × Pins pf (s.pf_pincount pf + 1) s s'
  unfolding pframe_pin to_pinned count
  pframe_pin-Pins = elim (Bool-cases (s.pf_pincount pf == 0)) [
    | inl first ↦
        let here : has pf s.alloc_list ≡ true =
          has_of_count pf s.alloc_list (ground (arith, kept.0 pf)) in
        let len : length (s.pinned_list ++ pf ∷ []) ≡ length s.pinned_list + 1 =
          length-append s.pinned_list (pf ∷ []) in
        let shorter : length (erase pf s.alloc_list) + 1 ≡ length s.alloc_list =
          length-erase pf s.alloc_list here in
        (
          pins pf (s.pf_pincount pf + 1) (to_pinned pf s),
          rw (used, first) refl,
          (
            (
              (λ t. ground (
                arith,
                kept.0 t,
                kept.0 pf,
                count-erase pf t s.alloc_list here,
                count-append t s.pinned_list (pf ∷ []),
              )),
              omega (arith, shorter, kept.1),
              omega (arith, len, kept.2),
            ),
            ground arith,
            omega (arith, shorter, kept.1),
          ),
        )
    | inr more ↦ (
      pins pf (s.pf_pincount pf + 1) s,
      rw (used, more) refl,
      (((λ t. ground (arith, kept.0 t, kept.0 pf)), kept.1, kept.2), ground arith, refl),
    )
  ]

  -- Where a frame in use is on the list that its pin count says, and the counters are the lengths
  -- of the lists, pframe_unpin of a frame in use that has a pin returns with one pin less and as
  -- many frames in all, and the lists and counters stay right.
  pub pframe_unpin-Pins :
      0 < s.pf_pincount pf
      → (s' : Pframes) × (pframe_unpin pf s ≡ done s') × Pins pf (s.pf_pincount pf - 1) s s'
  unfolding pframe_unpin to_allocated count
  pframe_unpin-Pins pos = elim (Bool-cases (s.pf_pincount pf - 1 == 0)) [
    | inl last ↦
        let here : has pf s.pinned_list ≡ true =
          has_of_count pf s.pinned_list (ground (arith, kept.0 pf)) in
        let len : length (s.alloc_list ++ pf ∷ []) ≡ length s.alloc_list + 1 =
          length-append s.alloc_list (pf ∷ []) in
        let shorter : length (erase pf s.pinned_list) + 1 ≡ length s.pinned_list =
          length-erase pf s.pinned_list here in
        let gone : ((pins pf (s.pf_pincount pf - 1) s).pf_pincount pf == 0) ≡ true = ground arith in
        (
          to_allocated pf (pins pf (s.pf_pincount pf - 1) s),
          rw (used, lt→ltb 0 (s.pf_pincount pf) pos) (rw gone refl),
          (
            (
              (λ t. ground (
                arith,
                kept.0 t,
                kept.0 pf,
                count-erase pf t s.pinned_list here,
                count-append t s.alloc_list (pf ∷ []),
              )),
              omega (arith, len, kept.1),
              omega (arith, shorter, kept.2),
            ),
            ground arith,
            omega (arith, shorter, kept.2),
          ),
        )
    | inr more ↦
        let stays : ((pins pf (s.pf_pincount pf - 1) s).pf_pincount pf == 0) ≡ false =
          ground arith in
        (
          pins pf (s.pf_pincount pf - 1) s,
          rw (used, lt→ltb 0 (s.pf_pincount pf) pos) (rw stays refl),
          (((λ t. ground (arith, kept.0 t, kept.0 pf)), kept.1, kept.2), ground arith, refl),
        )
  ]
