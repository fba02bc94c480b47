-- ===== src/Tests/Frames.antt =====
-- Three frames: 1 has no pins, 2 has one, 3 has two.
use csci.Prelude.Outcome.{done}
use csci.Prelude.{[], ◌∷◌, if◌then◌else◌, ◌||◌, refl, ◌==◌, ◌≡◌, not, arith}
use csci.Pframe.{pframe_pin, pframe_unpin, Pframes}
use csci.Sched.Queues.{count}
use csci.Pframe.Pinned.{IsKept, Pins, pframe_pin-Pins, pframe_unpin-Pins}

abbrev frames : Pframes
frames = record {
  is_free = λ t. not (t == 1 || (t == 2 || t == 3));
  pf_pincount = λ t. if t == 1 then 0 else if t == 2 then 1 else if t == 3 then 2 else 0;
  alloc_list = 1 ∷ [];
  pinned_list = 3 ∷ 2 ∷ [];
  nallocated = 1;
  npinned = 2;
}

frames-IsKept : IsKept frames
unfolding count
frames-IsKept = ((λ t. ground arith), refl, refl)

pframe_pin-Pins_example : (s' : Pframes) × (pframe_pin 1 frames ≡ done s') × Pins 1 1 frames s'
pframe_pin-Pins_example = pframe_pin-Pins 1 frames frames-IsKept refl

pframe_unpin-Pins_example : (s' : Pframes) × (pframe_unpin 2 frames ≡ done s') × Pins 2 0 frames s'
pframe_unpin-Pins_example = pframe_unpin-Pins 2 frames frames-IsKept refl (omega arith)
