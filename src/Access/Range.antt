-- ===== src/Access/Range.antt =====
-- range_perm: the addresses that it answers for.
use csci.Vmmap.Sorted.{lookup_sound, In}
use csci.Prelude.{
  [], ◌∙◌, ◌∷◌, none, sym, Option-cases, Bool-cases, lt→ltb, ◌/◌, ◌%◌, ◌≤◌, refl, zero, inr, arith,
  ge→ltb, inl, le_or_lt, suc, false, ◌*◌, Bool, true, ◌^◌, ◌<◌, ◌≡◌, ◌+◌, ℕ, List,
}
use csci.Prelude.Words.{add32-eq-add, add32}
use csci.Prelude.Outcome.{done}
use csci.Access.{range_perm, perm_loop, addr_perm}
use csci.Vmmap.{vmmap_lookup, Vmarea}
use csci.Paging.{IsPaging, Paging}

-- An area holds the page of the address.
abbrev pub IsMapped : List Vmarea → ℕ → Type 0
IsMapped map a = (v : Vmarea) × In v map × (v.start ≤ a / 4096) × (a / 4096 < v.end)

-- addr_perm of the address is true.
abbrev IsPermitted : Paging → List Vmarea → ℕ → Type 0
IsPermitted pg map a = addr_perm pg map a ≡ true

lookup_none :
    (map : List Vmarea) (vfn : ℕ) (v : Vmarea)
    → vmmap_lookup map vfn ≡ none
    → In v map
    → v.start ≤ vfn
    → vfn < v.end
    → ⊥
unfolding vmmap_lookup
lookup_none [] vfn v e i a b = i
lookup_none (x ∷ xs) vfn v e (inl same) a b = ground (arith, e, same, a, b)
lookup_none (x ∷ xs) vfn v e (inr i) a b = lookup_none xs vfn v (ground (arith, e)) i a b

permitted-IsMapped :
    (pg : Paging) (map : List Vmarea) (a : ℕ) → IsPaging pg → IsPermitted pg map a → IsMapped map a
unfolding addr_perm
permitted-IsMapped pg map a h e = elim (Option-cases (vmmap_lookup map (a / 4096))) [
  | inr (v, found) ↦ let (i, lo, hi) = lookup_sound map (a / 4096) v found in (v, i, lo, hi)
  | inl nowhere ↦ absurd (
      let no_area : false ≡ true = sym (rw (addr_perm, h.to_pn a, nowhere) refl) ∙ e in
      ground (arith, no_area))
]

refused-IsMapped :
    (pg : Paging) (map : List Vmarea) (a : ℕ)
    → IsPaging pg
    → addr_perm pg map a ≡ false
    → ¬ IsMapped map a
unfolding addr_perm
refused-IsMapped pg map a h e (v, i, lo, hi) = elim (Option-cases (vmmap_lookup map (a / 4096))) [
  | inl nowhere ↦ lookup_none map (a / 4096) v nowhere i lo hi
  | inr (x, found) ↦ absurd (
      let area : true ≡ false = sym (rw (addr_perm, h.to_pn a, found) refl) ∙ e in
      ground (arith, area))
]

module _ (pg : Paging) (h : IsPaging pg) (map : List Vmarea) (avaddr len : ℕ)
    (fits : avaddr + len + 4096 < 2 ^ 32) where
  -- The answer to the rounds from `offset` on.
  abbrev Rounds : ℕ → Bool → Type 0
  Rounds offset true =
      (k : ℕ) → offset + k * 4096 < len → IsPermitted pg map (avaddr + (offset + k * 4096))
  Rounds offset false =
      (k : ℕ) × (offset + k * 4096 < len)
      × (addr_perm pg map (avaddr + (offset + k * 4096)) ≡ false)

  at :
      (o o' : ℕ) (b : Bool)
      → o ≡ o'
      → addr_perm pg map (avaddr + o') ≡ b
      → addr_perm pg map (avaddr + o) ≡ b
  at o o' b e m = rw e m

  Rounds-all :
      (offset : ℕ)
      → IsPermitted pg map (avaddr + offset)
      → Rounds (offset + 4096) true
      → Rounds offset true
  Rounds-all offset m r zero lt = at (offset + 0) offset true (omega arith) m
  Rounds-all offset m r (suc k) lt =
      at (offset + suc k * 4096) (offset + 4096 + k * 4096) true (omega arith) (r k (omega arith))

  Rounds-first :
      (b : Bool) (offset : ℕ)
      → IsPermitted pg map (avaddr + offset)
      → Rounds (offset + 4096) b
      → Rounds offset b
  Rounds-first true offset m r = Rounds-all offset m r
  Rounds-first false offset m (k, lt, e) = (
    suc k,
    omega arith,
    at (offset + suc k * 4096) (offset + 4096 + k * 4096) false (omega arith) e,
  )

  perm_loop-Rounds :
      (f offset : ℕ)
      → offset < len + 4096
      → len + 4096 ≤ offset + f * 4096
      → (b : Bool) × (perm_loop f pg map avaddr len offset ≡ done b) × Rounds offset b
  unfolding perm_loop
  perm_loop-Rounds zero offset lo e = absurd (omega arith)
  perm_loop-Rounds (suc f) offset lo e = elim (le_or_lt len offset) [
    | inl over ↦ (true, rw (ge→ltb offset len over) refl, λ k b. absurd (omega arith))
    | inr inside ↦
        let (b, runs, rounds) = perm_loop-Rounds f (offset + 4096) (omega arith) (omega arith) in
        let here : add32 avaddr offset ≡ avaddr + offset =
          add32-eq-add avaddr offset (omega arith) in
        let next : add32 offset pg.page_size ≡ offset + 4096 =
          rw h.size (add32-eq-add offset 4096 (omega arith)) in
        let opened = lt→ltb offset len inside in
        elim (Bool-cases (addr_perm pg map (avaddr + offset))) [
          | inl mapped ↦
              (b, rw (opened, here, mapped, next) runs, Rounds-first b offset mapped rounds)
          | inr hole ↦ (
            false,
            rw (opened, here, hole) refl,
            (0, omega arith, at (offset + 0) offset false (omega arith) hole),
          )
        ]
  ]

same_page :
    (pg : Paging) (map : List Vmarea) (a a' : ℕ) (b : Bool)
    → pg.addr_to_pn a ≡ pg.addr_to_pn a'
    → addr_perm pg map a' ≡ b
    → addr_perm pg map a ≡ b
unfolding addr_perm
same_page pg map a a' b e m = rw (e, addr_perm) m

-- What range_perm should answer: whether the process has every byte of the range mapped.
abbrev pub RangeAnswer : List Vmarea → ℕ → ℕ → Bool → Type 0
RangeAnswer map avaddr len true = (i : ℕ) → i < len → IsMapped map (avaddr + i)
RangeAnswer map avaddr len false = (i : ℕ) × (i < len) × ¬ IsMapped map (avaddr + i)

-- For a range that starts at a page and ends more than a page below 2 ^ 32, range_perm returns, with a
-- yes if for every byte of the range an area holds its page, and with a no if for some byte none does.
pub range_perm-RangeAnswer :
    (pg : Paging) (map : List Vmarea) (avaddr len : ℕ)
    → IsPaging pg
    → avaddr % 4096 ≡ 0
    → avaddr + len + 4096 < 2 ^ 32
    → (b : Bool) × (range_perm pg map avaddr len ≡ done b) × RangeAnswer map avaddr len b
unfolding range_perm
range_perm-RangeAnswer pg map avaddr len h al fits =
    let (b, runs, rounds) =
      perm_loop-Rounds pg h map avaddr len fits (len / 4096 + 2) 0 (omega arith) (omega arith) in
    (b, runs, bytes b rounds)
  where
    page : (i : ℕ) → pg.addr_to_pn (avaddr + i) ≡ pg.addr_to_pn (avaddr + (0 + i / 4096 * 4096))
    page i = rw (h.to_pn (avaddr + i), h.to_pn (avaddr + (0 + i / 4096 * 4096))) (omega arith)

    bytes : (b : Bool) → Rounds pg h map avaddr len fits 0 b → RangeAnswer map avaddr len b
    bytes true r = λ i lt. permitted-IsMapped pg map (avaddr + i) h (
        same_page pg map (avaddr + i) (avaddr + (0 + i / 4096 * 4096)) true (page i)
          (r (i / 4096) (omega arith)))
    bytes false (k, lt, e) =
        (0 + k * 4096, lt, refused-IsMapped pg map (avaddr + (0 + k * 4096)) h e)
