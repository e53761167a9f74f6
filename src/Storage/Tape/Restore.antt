-- ===== src/Storage/Tape/Restore.antt =====
-- `restoreTapePosition` of src/Storage/TapeBackend.cpp over any drive, of which it uses the
-- operations of `ITapeBackend`. The reason of a refusal is a constructor with its numbers.
use sim.Base.{ℕ, Bool, true, false, not, ◌&&◌, ◌||◌, ◌==◌, if◌then◌else◌}
use sim.Base.Int.{ℤ, pos, negsuc, ◌==ℤ◌}
use sim.Storage.Tape.{
  TapeResult, ok, TapePosition, Tape, rewind, space_files, space_records, read_position,
}

pub record TapeBackend : Type 1 where
  pub State : Type 0
  pub rewind : State → State
  pub space_files : ℤ → State → TapeResult × ℕ × State
  pub space_records : ℤ → State → TapeResult × ℕ × State
  pub read_position : State → TapePosition

pub data Restoring : Type 0 where
  restored : Restoring
  negative_position : Restoring
  lost_file : TapeResult → ℕ → Restoring
  lost_block : TapeResult → ℕ → Restoring
  differs : TapePosition → Restoring

abbrev pub is_ok : TapeResult → Bool
is_ok ok = true
is_ok other = false

infix 50 ◌==𝔹◌
abbrev pub ◌==𝔹◌ : Bool → Bool → Bool
true ==𝔹 b = b
false ==𝔹 b = not b

unfoldable pub same_position : (actual wanted : TapePosition) → Bool
same_position actual wanted =
    actual.file_number ==ℤ wanted.file_number
    && (actual.block_number ==ℤ wanted.block_number
        && (actual.at_tape_mark ==𝔹 wanted.at_tape_mark
            && (actual.beginning_of_tape ==𝔹 wanted.beginning_of_tape
                && actual.end_of_data ==𝔹 wanted.end_of_data)))

-- The simulator's own drive.
abbrev pub simh : TapeBackend
simh = record {
  State = Tape;
  rewind = rewind;
  space_files = space_files;
  space_records = space_records;
  read_position = read_position;
}

module _ (backend : TapeBackend) where
  unfoldable pub check_position : TapePosition → backend.State → Restoring × backend.State
  check_position wanted tape =
      let actual = backend.read_position tape in
      if same_position actual wanted then (restored, tape) else (differs actual, tape)

  -- A space that did not go all the way.
  unfoldable pub stopped_short : (wanted : ℕ) → TapeResult → (spaced : ℕ) → Bool
  stopped_short wanted r spaced = not (is_ok r) || not (spaced == wanted)

  unfoldable pub after_records :
      (block : ℕ) → TapePosition → TapeResult × ℕ × backend.State → Restoring × backend.State
  after_records block wanted (r, spaced, tape) =
      if stopped_short block r spaced
      then (lost_block r spaced, tape)
      else check_position wanted tape

  unfoldable pub restore_block :
      (block : ℕ) → TapePosition → backend.State → Restoring × backend.State
  restore_block block wanted tape =
      if block == 0
      then check_position wanted tape
      else after_records block wanted (backend.space_records (pos block) tape)

  unfoldable pub after_files :
      (file block : ℕ) → TapePosition → TapeResult × ℕ × backend.State → Restoring × backend.State
  after_files file block wanted (r, spaced, tape) =
      if stopped_short file r spaced
      then (lost_file r spaced, tape)
      else restore_block block wanted tape

  unfoldable pub restore_file :
      (file block : ℕ) → TapePosition → backend.State → Restoring × backend.State
  restore_file file block wanted tape =
      if file == 0
      then restore_block block wanted tape
      else after_files file block wanted (backend.space_files (pos file) tape)

  unfoldable pub restore_numbers :
      (file block : ℤ) → TapePosition → backend.State → Restoring × backend.State
  restore_numbers (negsuc n) block wanted tape = (negative_position, tape)
  restore_numbers (pos file) (negsuc n) wanted tape = (negative_position, tape)
  restore_numbers (pos file) (pos block) wanted tape =
      restore_file file block wanted (backend.rewind tape)

  unfoldable pub restore_tape_position : backend.State → TapePosition → Restoring × backend.State
  restore_tape_position tape wanted =
      restore_numbers wanted.file_number wanted.block_number wanted tape
