-- ===== src/Control/Tests.antt =====
-- The theorems on the control storage processor at concrete inputs.
use sim.Base.{◌≡◌, refl, true, [], ◌∷◌, arith}
use sim.Base.Int.{pos, negsuc}
use sim.Processor.Instructions.{inline_parameters}
use sim.Control.WorkSpace.{WorkSpaceHeap, round, allocate, restore_checkpoint}
use sim.Control.WorkSpace.Ranges.{IsOrdered}
use sim.Control.WorkSpace.Assign.{Assigned, allocate-Assigned}
use sim.Control.WorkSpace.Checkpoint.{restore_checkpoint-IsOrdered}

abbrev heap0 : WorkSpaceHeap
heap0 = record {
  capacity = 0x2000;
  free_ranges = record { at = 0x40; length = 0x100 } ∷ record { at = 0x780; length = 0x1000 } ∷ [];
}

heap0-IsOrdered : IsOrdered heap0
heap0-IsOrdered = (omega arith, omega arith, (omega arith, omega arith, tt))

allocate-Assigned_example : Assigned (round 0x200) heap0 (allocate 0x200 true heap0)
allocate-Assigned_example = allocate-Assigned 0x200 true heap0 heap0-IsOrdered

restore_checkpoint-IsOrdered_example :
    IsOrdered (restore_checkpoint (pos 0x40 ∷ pos 0x80 ∷ pos 0x1000 ∷ negsuc 0 ∷ []) heap0).1
restore_checkpoint-IsOrdered_example =
    restore_checkpoint-IsOrdered (pos 0x40 ∷ pos 0x80 ∷ pos 0x1000 ∷ negsuc 0 ∷ []) heap0
      heap0-IsOrdered

three_parameters : inline_parameters 0x0f ≡ 3
unfolding inline_parameters
three_parameters = refl
