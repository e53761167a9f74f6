-- ===== src/Storage/Tape.antt =====
-- `SimhTapeBackend` of src/Storage/SimhTapeBackend.{h,cpp} as a tape drive, and the types of
-- src/Storage/TapeBackend.h. The bytes of the container's file on the host are part of the state,
-- `none` where the host cannot open it. A block to be written lies within the caller's buffer.
pub mod Restore
pub mod Container
pub mod Position
pub mod Space
pub mod Blocks
pub mod Words
pub mod Index
pub mod Stream
pub mod Flush
mod Tests
use sim.Base.{
  ℕ, zero, suc, ◌+◌, ◌-◌, Bool, true, false, not, ◌&&◌, Option, none, some, List, [], ◌∷◌, ◌++◌,
  ltb, leb, ◌==◌, if◌then◌else◌, length, take, drop, get_or,
}
use sim.Base.Int.{ℤ, pos, negsuc, pos_part}

pub data TapeResult : Type 0 where
  ok : TapeResult
  tape_mark : TapeResult
  end_of_data : TapeResult
  beginning_of_tape : TapeResult
  write_protected : TapeResult
  not_ready : TapeResult
  record_error : TapeResult
  invalid_argument : TapeResult

pub record TapePosition : Type 0 where
  pub file_number : ℤ
  pub block_number : ℤ
  pub at_tape_mark : Bool
  pub beginning_of_tape : Bool
  pub end_of_data : Bool

-- `Item`.
pub record Item : Type 0 where
  pub mark : Bool
  pub record_error : Bool
  pub in_memory : Bool
  pub offset : ℕ
  pub length : ℕ
  pub bytes : List ℕ

abbrev pub mark_item : Item
mark_item = record {
  mark = true;
  record_error = false;
  in_memory = false;
  offset = 0;
  length = 0;
  bytes = [];
}

unfoldable pub source_item : (offset length : ℕ) → (record_error : Bool) → Item
source_item offset count flag = record {
  mark = false;
  record_error = flag;
  in_memory = false;
  offset = offset;
  length = count;
  bytes = [];
}

unfoldable pub memory_item : List ℕ → Item
memory_item bytes = record {
  mark = false;
  record_error = false;
  in_memory = true;
  offset = 0;
  length = length bytes;
  bytes = bytes;
}

pub record Tape : Type 0 where
  pub file : Option (List ℕ)
  pub read_only : Bool
  pub loaded : Bool
  pub dirty : Bool
  pub volume_id : List ℕ
  pub items : List Item
  pub cursor : ℕ

-- Why the bytes of a record are not read.
pub data ReadFault : Type 0 where
  cannot_open : ReadFault
  changed : ReadFault

pub data Fetch : Type 0 where
  fetched : List ℕ → Fetch
  failed : ReadFault → Fetch

unfoldable pub read_file : Option (List ℕ) → (offset length : ℕ) → Fetch
read_file none offset count = failed cannot_open
read_file (some bytes) offset count =
    let got = take count (drop offset bytes) in
    if length got == count then fetched got else failed changed

unfoldable pub read_item : Option (List ℕ) → Item → Fetch
read_item file item =
    if item.in_memory then fetched item.bytes else read_file file item.offset item.length

unfoldable pub load : Tape → Tape
load t = record t { loaded = true; cursor = 0 }

unfoldable pub rewind : Tape → Tape
rewind t = record t { cursor = 0 }

-- A read answers a result with the block's bytes, or throws.
pub data Reading : Type 0 where
  answered : TapeResult → List ℕ → Reading
  thrown : ReadFault → Reading

unfoldable pub answer : Item → Fetch → Reading
answer item (fetched bytes) = answered (if item.record_error then record_error else ok) bytes
answer item (failed fault) = thrown fault

unfoldable pub read_block : Tape → Reading × Tape
read_block t =
    if not t.loaded
    then (answered not_ready [], t)
    else if leb (length t.items) t.cursor
    then (answered end_of_data [], t)
    else let item = get_or t.items t.cursor mark_item in
      let t' = record t { cursor = t.cursor + 1 } in
      if item.mark then (answered tape_mark [], t') else (answer item (read_item t.file item), t')

unfoldable pub truncate_forward : Tape → Tape
truncate_forward t =
    if ltb t.cursor (length t.items) then record t { items = take t.cursor t.items } else t

unfoldable pub push_item : Item → Tape → Tape
push_item item t =
    let items = t.items ++ item ∷ [] in
    record t { items = items; cursor = length items; dirty = true }

abbrev pub length_mask : ℕ
length_mask = 0xffffff

-- The block's bytes, from a buffer that may be null.
unfoldable pub block : Option (List ℕ) → (offset length : ℤ) → Option (List ℕ)
block none offset count = none
block (some data_bytes) (negsuc n) count = none
block (some data_bytes) (pos offset) (negsuc n) = none
block (some data_bytes) (pos offset) (pos count) =
    if ltb count 1
    then none
    else if ltb length_mask count
    then none
    else some (take count (drop offset data_bytes))

unfoldable pub write_bytes : Option (List ℕ) → Tape → TapeResult × Tape
write_bytes none t = (invalid_argument, t)
write_bytes (some bytes) t = (ok, push_item (memory_item bytes) (truncate_forward t))

unfoldable pub write_block : Option (List ℕ) → (offset length : ℤ) → Tape → TapeResult × Tape
write_block buffer offset count t =
    if not t.loaded
    then (not_ready, t)
    else if t.read_only
    then (write_protected, t)
    else write_bytes (block buffer offset count) t

unfoldable pub write_tape_mark : Tape → TapeResult × Tape
write_tape_mark t =
    if not t.loaded
    then (not_ready, t)
    else if t.read_only
    then (write_protected, t)
    else (ok, push_item mark_item (truncate_forward t))

unfoldable pub mark_at : List Item → ℕ → Bool
mark_at items i = (get_or items i mark_item).mark

-- The loops that space over records, with the records left: why it stopped, the records spaced and
-- the cursor.
unfoldable pub forward_records : (left : ℕ) → List Item → (spaced cursor : ℕ) → TapeResult × ℕ × ℕ
forward_records zero items spaced cursor = (ok, spaced, cursor)
forward_records (suc left) items spaced cursor =
    let rest = forward_records left items (spaced + 1) (cursor + 1) in
    if leb (length items) cursor
    then (end_of_data, spaced, cursor)
    else if mark_at items cursor
    then (tape_mark, spaced, cursor)
    else rest

unfoldable pub backward_records : (left : ℕ) → List Item → (spaced cursor : ℕ) → TapeResult × ℕ × ℕ
backward_records zero items spaced cursor = (ok, spaced, cursor)
backward_records (suc left) items spaced cursor =
    let rest = backward_records left items (spaced + 1) (cursor - 1) in
    if cursor == 0
    then (beginning_of_tape, spaced, cursor)
    else if mark_at items (cursor - 1)
    then (tape_mark, spaced, cursor)
    else rest

-- The answer of a space with the cursor stored.
unfoldable pub stored : Tape → TapeResult × ℕ × ℕ → TapeResult × ℕ × Tape
stored t (result, spaced, cursor) = (result, spaced, record t { cursor = cursor })

unfoldable pub space_records : ℤ → Tape → TapeResult × ℕ × Tape
space_records (pos count) t =
    if not t.loaded then (not_ready, 0, t) else stored t (forward_records count t.items 0 t.cursor)
space_records (negsuc n) t =
    if not t.loaded
    then (not_ready, 0, t)
    else stored t (backward_records (suc n) t.items 0 t.cursor)

-- The loop of `forwardToAfterNextMark`, with the items that are left.
unfoldable pub forward_loop : (left : ℕ) → List Item → ℕ → Bool × ℕ
forward_loop zero items cursor = (false, cursor)
forward_loop (suc left) items cursor =
    let rest = forward_loop left items (cursor + 1) in
    if mark_at items cursor then (true, cursor + 1) else rest

unfoldable pub forward_to_after_next_mark : List Item → ℕ → Bool × ℕ
forward_to_after_next_mark items cursor = forward_loop (length items - cursor) items cursor

unfoldable pub backward_loop : List Item → ℕ → ℕ
backward_loop items zero = zero
backward_loop items (suc c) =
    let rest = backward_loop items c in if mark_at items c then suc c else rest

unfoldable pub backward_to_start_of_file : List Item → ℕ → Bool × ℕ
backward_to_start_of_file items cursor =
    if cursor == 0
    then (false, cursor)
    else (true, backward_loop items (if mark_at items (cursor - 1) then cursor - 1 else cursor))

unfoldable pub forward_files : (left : ℕ) → List Item → (spaced cursor : ℕ) → TapeResult × ℕ × ℕ
forward_files zero items spaced cursor = (ok, spaced, cursor)
forward_files (suc left) items spaced cursor =
    let (found, next) = forward_to_after_next_mark items cursor in
    let rest = forward_files left items (spaced + 1) next in
    if found then rest else (end_of_data, spaced, next)

unfoldable pub backward_files : (left : ℕ) → List Item → (spaced cursor : ℕ) → TapeResult × ℕ × ℕ
backward_files zero items spaced cursor = (ok, spaced, cursor)
backward_files (suc left) items spaced cursor =
    let (found, next) = backward_to_start_of_file items cursor in
    let rest = backward_files left items (spaced + 1) next in
    if found then rest else (beginning_of_tape, spaced, next)

unfoldable pub space_files : ℤ → Tape → TapeResult × ℕ × Tape
space_files (pos count) t =
    if not t.loaded then (not_ready, 0, t) else stored t (forward_files count t.items 0 t.cursor)
space_files (negsuc n) t =
    if not t.loaded then (not_ready, 0, t) else stored t (backward_files (suc n) t.items 0 t.cursor)

-- The file and the block within it, over the items before the cursor.
unfoldable pub count_items : (cursor : ℕ) → List Item → (file block : ℕ) → ℕ × ℕ
count_items zero items file_count blocks = (file_count, blocks)
count_items (suc c) [] file_count blocks = (file_count, blocks)
count_items (suc c) (item ∷ rest) file_count blocks =
    if item.mark
    then count_items c rest (file_count + 1) 0
    else count_items c rest file_count (blocks + 1)

unfoldable pub read_position : Tape → TapePosition
read_position t =
    let (files, blocks) = count_items t.cursor t.items 0 0 in
    record {
      file_number = pos files;
      block_number = pos blocks;
      at_tape_mark = ltb t.cursor (length t.items) && mark_at t.items t.cursor;
      beginning_of_tape = t.cursor == 0;
      end_of_data = leb (length t.items) t.cursor;
    }
