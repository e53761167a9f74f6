-- ===== src/Control/DirectArea/Tests.antt =====
-- The theorem on the direct areas at a concrete input.
use sim.Base.{◌≡◌, true, refl, arith, inr}
use sim.Control.DirectArea.{
  DirectArea, blank_area, write, set_word, restore_checkpoint, capture_checkpoint,
}
use sim.Control.DirectArea.Restored.{restore_checkpoint-capture_checkpoint_word}

abbrev area0 : DirectArea
area0 = write blank_area 821 0x123456

restore_checkpoint-capture_checkpoint_word_example :
    ((restore_checkpoint (capture_checkpoint area0)).0 ≡ true)
    × ((restore_checkpoint (capture_checkpoint area0)).1 821 ≡ area0 821)
unfolding write set_word
restore_checkpoint-capture_checkpoint_word_example =
    restore_checkpoint-capture_checkpoint_word area0 821 (omega arith)
      (inr (omega arith, omega arith, refl))
