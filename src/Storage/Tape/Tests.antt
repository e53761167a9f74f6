-- ===== src/Storage/Tape/Tests.antt =====
-- The theorems on the tape at concrete inputs.
use sim.Base.{◌≢◌, refl, ◌≡◌, ◌++◌, true, false, none, some, [], ◌∷◌, List, ℕ, arith, take}
use sim.Base.Int.{pos}
use sim.Storage.Tape.{
  Tape, memory_item, source_item, mark_item, read_file, read_item, read_position, read_block,
  write_block,
}
use sim.Storage.Tape.Container.{
  out_of_fuel, volume_id_of, finish_open, discover_volume_id, open_file, flush, index, index_file,
  index_loop, index_marker, index_record, index_fields, check_trailer, read_word, padding, settle,
}
use sim.Storage.Tape.Restore.{restore_tape_position, simh, restored}
use sim.Storage.Tape.Position.{restore_tape_position-read_position}
use sim.Storage.Tape.Blocks.{
  TapeBlock, mark_block, data_block, Represents, Wrote, read_to, read_blocks, read_block-Represents,
  write_block-appends,
}
use sim.Storage.Tape.Stream.{stream}
use sim.Storage.Tape.Flush.{flush-Represents}
use sim.Storage.Tape.Index.{index_file-ends, open_file-Represents}

-- A record of three bytes in memory, a mark, and a record of two bytes in the file.
abbrev short_tape : Tape
short_tape = record {
  file = some (9 ∷ 8 ∷ 7 ∷ []);
  read_only = false;
  loaded = true;
  dirty = true;
  volume_id = [];
  items = memory_item (1 ∷ 2 ∷ 3 ∷ []) ∷ mark_item ∷ source_item 1 2 true ∷ [];
  cursor = 1;
}

abbrev short_blocks : List TapeBlock
short_blocks = data_block false (1 ∷ 2 ∷ 3 ∷ []) ∷ mark_block ∷ data_block true (8 ∷ 7 ∷ []) ∷ []

short_tape-Represents : Represents short_tape short_blocks
unfolding Represents memory_item source_item read_item read_file
short_tape-Represents = (
  (
    (refl, refl, refl, refl, omega arith, omega arith),
    (refl, ((refl, refl, refl, refl, omega arith, omega arith), tt)),
  ),
  omega arith,
)

flush-Represents_example :
    (t' : Tape) × (flush true short_tape ≡ (none, t'))
    × Represents t' short_blocks
    × (t'.file ≡ some (stream short_blocks))
    × (t'.cursor ≡ 1)
    × (t'.loaded ≡ true)
    × (t'.dirty ≡ false)
    × (t'.volume_id ≡ volume_id_of t'.file t'.items)
flush-Represents_example = flush-Represents short_tape short_blocks refl short_tape-Represents

restore_tape_position-read_position_example :
    restore_tape_position simh (record short_tape { cursor = 3 }) (read_position short_tape)
    ≡ (restored, short_tape)
restore_tape_position-read_position_example =
    restore_tape_position-read_position short_tape 3 refl (omega arith)

read_block-Represents_example :
    read_block short_tape ≡ read_to short_tape (read_blocks short_blocks 1)
read_block-Represents_example =
    read_block-Represents short_tape short_blocks refl short_tape-Represents

write_block-appends_example :
    Wrote
      (take 1 short_blocks ++ data_block false (5 ∷ 6 ∷ []) ∷ [])
      (write_block (some (4 ∷ 5 ∷ 6 ∷ [])) (pos 1) (pos 2) short_tape)
write_block-appends_example =
    write_block-appends short_tape short_blocks refl refl short_tape-Represents (4 ∷ 5 ∷ 6 ∷ []) 1 2
      (omega arith) (omega arith) (omega arith)

abbrev short_file : List ℕ
short_file = 0 ∷ 0 ∷ 0 ∷ 0 ∷ 1 ∷ 0 ∷ 0 ∷ 0 ∷ 64 ∷ 0 ∷ 1 ∷ 0 ∷ 0 ∷ 0 ∷ []

abbrev short_open : Tape
short_open = record {
  file = some short_file;
  read_only = true;
  loaded = false;
  dirty = false;
  volume_id = [];
  items = mark_item ∷ source_item 8 1 false ∷ [];
  cursor = 0;
}

open_file-Represents_example : (bs : List TapeBlock) × Represents short_open bs
unfolding volume_id_of finish_open discover_volume_id open_file index index_file index_loop
    index_marker index_record index_fields check_trailer read_word padding settle
open_file-Represents_example = open_file-Represents short_file true short_open refl

index_file-ends_example : index_file (some short_file) ≢ out_of_fuel
index_file-ends_example = index_file-ends (some short_file)
