-- ===== src/Tests/MyList.antt =====
-- An empty list, and the elements 5, 6 and 7 that malloc gives.
use csci.MyList.Rep.{Rep}
use csci.MyList.Refines.{Answers, Does, run-Does, Call, run, StandsFor}
use csci.MyList.{
  my402_list_next, free, get_prev, get_next, my402_list_last, my402_list_empty, set_obj,
  my402_list_unlink, set_prev, my402_list_insert_before, my402_list_unlink_all, set_next, link_only,
  anchor, my402_list_append, my402_list_init, my402_list_find, My402List,
}
use csci.Prelude.{true, ◌||◌, if◌then◌else◌, ◌∷◌, refl, [], arith, some, ◌==◌, ◌≡◌}
use csci.MyList.Walk.{unlink_all-AllFree, find-first, AllFree}
use csci.MyList.Insert.{IsFresh}
use csci.Prelude.Outcome.{done, ◌>>=◌, Outcome}
use csci.MyList.Unlink.{Leaves}

abbrev empty : My402List
empty = my402_list_init (record {
  num_members = 3;
  next = λ a. 9;
  prev = λ a. 9;
  obj = λ a. 9;
  live = λ a. a == anchor;
})

empty-StandsFor : StandsFor empty []
unfolding my402_list_init
empty-StandsFor = record {
  rep = record {
    count = refl;
    ring = λ h. absurd (ground (arith, h));
    distinct = (refl, tt);
    alive = λ a h. ground (arith, h);
    null = refl;
  };
  objects = tt;
}

free_address : IsFresh 5 empty
unfolding my402_list_init
free_address = (refl, λ e. absurd (omega (arith, e)))

run-Does_example :
    Answers (λ l'. StandsFor l' ((5, 30) ∷ [])) (some true) (run (Call.append 30) 5 empty)
run-Does_example =
    run-Does (Call.append 30) 5 empty [] ((5, 30) ∷ []) empty-StandsFor free_address
      (Does.appends 30 [])

-- 5, 7 and 6, after which 7 is unlinked, and the object of what is behind 5.
abbrev three : Outcome My402List
three = do
  a ← my402_list_append (some 5) 30 empty
  b ← my402_list_append (some 6) 31 a.1
  c ← my402_list_insert_before (some 7) 32 6 b.1
  my402_list_unlink 7 c.1

behind_first : (three >>= λ l. my402_list_next 5 l) ≡ done 6
unfolding my402_list_init my402_list_append link_only set_next set_prev set_obj my402_list_empty
    my402_list_last my402_list_insert_before get_next get_prev my402_list_unlink free
    my402_list_next
behind_first = refl

-- The elements 5 and 6, with the objects 30 and 31.
abbrev two : My402List
two = record {
  num_members = 2;
  next = λ a. if a == 5 then 6 else if a == 6 then anchor else 5;
  prev = λ a. if a == 6 then 5 else if a == 5 then anchor else 6;
  obj = λ a. if a == 5 then 30 else 31;
  live = λ a. a == anchor || (a == 5 || a == 6);
}

two-Rep : Rep two (5 ∷ 6 ∷ [])
two-Rep = record {
  count = refl;
  ring = λ h. (refl, refl, (refl, refl, (refl, refl)));
  distinct = (refl, (refl, (refl, tt)));
  alive = λ a h. ground (arith, h);
  null = refl;
}

unlink_all-AllFree_example : Leaves (AllFree two (5 ∷ 6 ∷ [])) (my402_list_unlink_all two)
unlink_all-AllFree_example = unlink_all-AllFree two (5 ∷ 6 ∷ []) two-Rep

find-first_example : my402_list_find 31 two ≡ done 6
find-first_example = find-first 31 two (5 ∷ 6 ∷ []) two-Rep
