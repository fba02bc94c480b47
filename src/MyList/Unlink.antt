-- ===== src/MyList/Unlink.antt =====
-- My402ListUnlink and My402ListUnlinkAll.
use csci.MyList.Ring.{Chain-at, head_or, last_from, Removed}
use csci.MyList.Rep.{elsewhere, head_in_rest, Removed-Rep, head_in, last_in, in_mid, not_nil, Rep}
use csci.Prelude.{refl, ◌≢◌, false, true, ◌≡◌, ◌∷◌, ◌++◌, List, ℕ}
use csci.Prelude.Outcome.{done, Outcome}
use csci.MyList.{anchor, free, get_prev, get_next, set_prev, set_next, My402List, my402_list_unlink}
use csci.Prelude.{arith}

-- A call that returns a list with a property.
pub data Leaves (P : My402List → Type 0) : Outcome My402List → Type 0 where
  leaves : (l : My402List) → P l → Leaves P (done l)

unlinked :
    (l : My402List) (e : ℕ) (ps qs : List ℕ)
    → Rep l (ps ++ e ∷ qs)
    → Leaves (Removed (last_from anchor ps) e (head_or qs) l) (my402_list_unlink e l)
unfolding my402_list_unlink set_next set_prev get_next get_prev free
unlinked l e ps qs r =
    let c = r.ring (not_nil e ps qs) in
    let at = Chain-at l anchor e ps qs c in
    let at_prev : l.prev e ≡ last_from anchor ps = at.0 in
    let at_next : l.next e ≡ head_or qs = at.1 in
    let alive : l.live e ≡ true = r.alive e (let h = in_mid e ps qs in ground (arith, h)) in
    let alive_x : l.live (last_from anchor ps) ≡ true =
      r.alive (last_from anchor ps) (last_in ps (e ∷ qs)) in
    let alive_y : l.live (head_or qs) ≡ true = r.alive (head_or qs) (head_in e ps qs) in
    let x_e = elsewhere l e (last_from anchor ps) ps qs r (last_in ps qs) in
    let y_e = elsewhere l e (head_or qs) ps qs r (head_in_rest ps qs) in
    simp (alive, at_prev, at_next, alive_x, alive_y)
      (Leaves.leaves _ (record {
        next_x = ground (arith, x_e);
        prev_y = ground (arith, y_e);
        next_same = λ a h h'. ground (arith, h, h');
        prev_same = λ a h h'. ground (arith, h, h');
        obj_same = λ a. refl;
        live_e = ground arith;
        live_same = λ a h. ground (arith, h);
        count = refl;
      }))

pub Leaves-map :
    {P Q : My402List → Type 0} {o : Outcome My402List}
    → ((l : My402List) → P l → Q l)
    → Leaves P o
    → Leaves Q o
Leaves-map f (leaves l p) = Leaves.leaves l (f l p)

-- The list without `e`: the memory of `e` is free, and all objects are where they were.
pub record Without (l : My402List) (e : ℕ) (es : List ℕ) (l' : My402List) : Type 0 where
  pub rep : Rep l' es
  pub freed : l'.live e ≡ false
  pub others : (a : ℕ) → a ≢ e → l'.live a ≡ l.live a
  pub objects : (a : ℕ) → l'.obj a ≡ l.obj a

pub unlink-Without :
    (l : My402List) (e : ℕ) (ps qs : List ℕ)
    → Rep l (ps ++ e ∷ qs)
    → Leaves (Without l e (ps ++ qs)) (my402_list_unlink e l)
unlink-Without l e ps qs r =
    Leaves-map
      (λ l' m. record {
        rep = Removed-Rep l l' e ps qs r m;
        freed = m.live_e;
        others = m.live_same;
        objects = m.obj_same;
      })
      (unlinked l e ps qs r)
