-- ===== src/Control/Elements/Tests.antt =====
-- A queue of action control elements at a concrete state: the element 600 is queued.
use sim.Base.{◌≡◌, inr, refl, [], ◌∷◌, ◌++◌, ◌==◌, if◌then◌else◌, arith}
use sim.Machine.Tests.{machine0}
use sim.Machine.State.{Machine}
use sim.Control.Elements.{header_address, enqueue, elements}
use sim.Control.Elements.Fifo.{IsJoinable, elements-enqueue}

abbrev queued0 : Machine
queued0 = record machine0 { storage = λ a. if a == 0xb16 then 6 else 0 }

queued0-IsJoinable : IsJoinable queued0 5 0x700 (0x600 ∷ [])
unfolding header_address
queued0-IsJoinable = record {
  header = omega arith;
  chained = (refl, omega arith, omega arith, refl);
  spread = (tt, tt);
  apart = (inr (omega arith), tt);
  clear = (inr (omega arith), tt);
  off_header = inr (omega arith);
  positive = omega arith;
  address = omega arith;
  room = omega arith;
  count = omega arith;
}

elements-enqueue_example :
    ((elements queued0 5).0 ≡ 0x600 ∷ [])
    × ((elements (enqueue queued0 5 0x700) 5).0 ≡ (0x600 ∷ []) ++ 0x700 ∷ [])
elements-enqueue_example = elements-enqueue queued0 5 0x700 (0x600 ∷ []) queued0-IsJoinable
