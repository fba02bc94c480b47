-- ===== src/MyList.antt =====
-- Homework/Warmup1/my402list.c, which Homework/Warmup2 has a copy of: a circular list with an anchor. An
-- element is named by its address; the anchor has an address of its own, NULL is 0. A read or a write
-- through an address that is not allocated is `wild`. malloc is a parameter: its result is an argument.
use csci.Prelude.Outcome.{wild, deref, ◌>>=◌, done, out_of_fuel, Outcome}
use csci.Prelude.{
  none, zero, some, ◌-◌, suc, false, if◌then◌else◌, ◌==◌, true, Option, ◌+◌, Bool, ℕ,
}
use csci.Sched.{update}
pub mod Refines
pub mod Ring
pub mod Rep
pub mod Insert
pub mod Unlink
pub mod Walk

pub record My402List : Type 0 where
  pub num_members : ℕ
  pub next : ℕ → ℕ
  pub prev : ℕ → ℕ
  pub obj : ℕ → ℕ
  pub live : ℕ → Bool

abbrev pub anchor : ℕ
anchor = 1

-- Writes and reads of the fields of an element.
unfoldable pub set_next : ℕ → ℕ → My402List → Outcome My402List
set_next a v l = if l.live a then done (record l { next = update l.next a v }) else wild

unfoldable pub set_prev : ℕ → ℕ → My402List → Outcome My402List
set_prev a v l = if l.live a then done (record l { prev = update l.prev a v }) else wild

unfoldable pub set_obj : ℕ → ℕ → My402List → Outcome My402List
set_obj a v l = if l.live a then done (record l { obj = update l.obj a v }) else wild

unfoldable pub get_next : ℕ → My402List → Outcome ℕ
get_next a l = if l.live a then done (l.next a) else wild

unfoldable pub get_prev : ℕ → My402List → Outcome ℕ
get_prev a l = if l.live a then done (l.prev a) else wild

unfoldable pub get_obj : ℕ → My402List → Outcome ℕ
get_obj a l = if l.live a then done (l.obj a) else wild

-- What malloc and free do to the memory.
abbrev pub allocated : ℕ → My402List → My402List
allocated e l = record l { live = update l.live e true }

unfoldable pub free : ℕ → My402List → Outcome My402List
free e l = if l.live e then done (record l { live = update l.live e false }) else wild

abbrev pub one_more : My402List → My402List
one_more l = record l { num_members = l.num_members + 1 }

unfoldable pub my402_list_length : My402List → ℕ
my402_list_length l = l.num_members

unfoldable pub my402_list_empty : My402List → Bool
my402_list_empty l = l.num_members == 0

unfoldable pub my402_list_first : My402List → ℕ
unfolding my402_list_empty
my402_list_first l = if my402_list_empty l then 0 else l.next anchor

unfoldable pub my402_list_last : My402List → ℕ
unfolding my402_list_empty
my402_list_last l = if my402_list_empty l then 0 else l.prev anchor

unfoldable pub my402_list_next : ℕ → My402List → Outcome ℕ
unfolding my402_list_last get_next
my402_list_next cur l = if my402_list_last l == cur then done 0 else get_next cur l

unfoldable pub my402_list_prev : ℕ → My402List → Outcome ℕ
unfolding my402_list_first get_prev
my402_list_prev cur l = if my402_list_first l == cur then done 0 else get_prev cur l

-- The element alone between the anchor and itself.
unfoldable pub link_only : ℕ → My402List → Outcome My402List
unfolding set_next set_prev
link_only e l0 = do
  l1 ← set_next anchor e (one_more l0)
  l2 ← set_prev anchor e l1
  l3 ← set_prev e anchor l2
  set_next e anchor l3

-- The result is the value that is returned, and the list.
unfoldable pub my402_list_append : Option ℕ → ℕ → My402List → Outcome (Bool × My402List)
unfolding set_next set_prev set_obj link_only my402_list_empty my402_list_last
my402_list_append none obj l = done (false, l)
my402_list_append (some e) obj l = do
  l1 ← set_obj e obj (allocated e l)
  l2 ← if my402_list_empty l1 then link_only e l1 else do
    let last = my402_list_last (one_more l1)
    m1 ← set_prev e last (one_more l1)
    m2 ← set_next e anchor m1
    m3 ← set_next last e m2
    set_prev anchor e m3
  done (true, l2)

unfoldable pub my402_list_prepend : Option ℕ → ℕ → My402List → Outcome (Bool × My402List)
unfolding set_next set_prev set_obj link_only my402_list_empty my402_list_first
my402_list_prepend none obj l = done (false, l)
my402_list_prepend (some e) obj l = do
  l1 ← set_obj e obj (allocated e l)
  l2 ← if my402_list_empty l1 then link_only e l1 else do
    let first = my402_list_first (one_more l1)
    m1 ← set_prev e anchor (one_more l1)
    m2 ← set_next e first m1
    m3 ← set_next anchor e m2
    set_prev first e m3
  done (true, l2)

unfoldable pub my402_list_unlink : ℕ → My402List → Outcome My402List
unfolding get_prev get_next set_next set_prev free
my402_list_unlink elem l = do
  prev ← get_prev elem l
  next ← get_next elem l
  l1 ← set_next prev next l
  l2 ← set_prev next prev l1
  l3 ← set_prev elem 0 l2
  l4 ← set_next elem 0 l3
  l5 ← free elem l4
  done (record l5 { num_members = l5.num_members - 1 })

-- The result of malloc is not tested here.
unfoldable pub my402_list_insert_after : Option ℕ → ℕ → ℕ → My402List → Outcome (Bool × My402List)
unfolding set_next set_prev set_obj get_next my402_list_append
my402_list_insert_after new obj elem l = if elem == 0 then my402_list_append new obj l else do
  e ← deref new
  l1 ← set_obj e obj (allocated e (one_more l))
  next ← get_next elem l1
  l2 ← set_prev e elem l1
  l3 ← set_next e next l2
  l4 ← set_next elem e l3
  l5 ← set_prev next e l4
  done (true, l5)

unfoldable pub my402_list_insert_before : Option ℕ → ℕ → ℕ → My402List → Outcome (Bool × My402List)
unfolding set_next set_prev set_obj get_prev my402_list_prepend
my402_list_insert_before new obj elem l = if elem == 0 then my402_list_prepend new obj l else do
  e ← deref new
  l1 ← set_obj e obj (allocated e (one_more l))
  prev ← get_prev elem l1
  l2 ← set_prev e prev l1
  l3 ← set_next e elem l2
  l4 ← set_next prev e l3
  l5 ← set_prev elem e l4
  done (true, l5)

-- memset, which leaves the elements where they are.
unfoldable pub my402_list_init : My402List → My402List
my402_list_init l = record l {
  num_members = 0;
  next = update l.next anchor 0;
  prev = update l.prev anchor 0;
  obj = update l.obj anchor 0;
}

-- The loop of My402ListUnlinkAll.
unfoldable pub unlink_loop : ℕ → ℕ → ℕ → My402List → Outcome My402List
unlink_loop zero cur cur_next l = out_of_fuel
unlink_loop (suc fuel) cur cur_next l =
    let rest = my402_list_unlink cur l >>= λ l1.
    my402_list_next cur_next l1 >>= λ after. unlink_loop fuel cur_next after l1 in
    if cur == 0 then done l else rest

unfoldable pub my402_list_unlink_all : My402List → Outcome My402List
unfolding my402_list_first my402_list_init
my402_list_unlink_all l = do
  let cur = my402_list_first l
  next ← my402_list_next cur l
  l1 ← unlink_loop (l.num_members + 1) cur next l
  done (my402_list_init l1)

-- The loop of My402ListFind.
unfoldable pub find_loop : ℕ → ℕ → ℕ → My402List → Outcome ℕ
unfolding get_obj
find_loop zero obj cur l = out_of_fuel
find_loop (suc fuel) obj cur l =
    let rest = my402_list_next cur l >>= λ next. find_loop fuel obj next l in
    if cur == 0 then done 0 else get_obj cur l >>= λ o. if o == obj then done cur else rest

unfoldable pub my402_list_find : ℕ → My402List → Outcome ℕ
unfolding my402_list_first
my402_list_find obj l = find_loop (l.num_members + 1) obj (my402_list_first l) l
