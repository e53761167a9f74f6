-- ===== src/Storage/Tape/Container.antt =====
-- The SIMH container of src/Storage/SimhTapeBackend.cpp: the index of the file's records, and the
-- file that `flush` writes. The file is read byte by byte from the position `at`; that the host has
-- written and replaced the file is an argument of `flush`.
use sim.Base.{
  take, get_or, ℕ, zero, suc, ◌+◌, ◌-◌, ◌*◌, ◌/◌, ◌%◌, ◌^◌, bit_and, bit_or, Bool, true, false, not,
  ◌&&◌, ◌||◌, Option, none, some, List, [], ◌∷◌, ◌++◌, ltb, ◌==◌, if◌then◌else◌, length, drop,
}
use sim.Storage.Ebcdic.{cp037, to_ascii}
use sim.Storage.Tape.{
  Item, mark_item, source_item, Tape, ReadFault, Fetch, fetched, failed, read_item, length_mask,
}

abbrev pub tape_mark_word : ℕ
tape_mark_word = 0

abbrev pub end_of_medium : ℕ
end_of_medium = 0xffffffff

abbrev pub erase_gap : ℕ
erase_gap = 0xfffffffe

abbrev pub error_flag : ℕ
error_flag = 0x80000000

unfoldable pub read_word : List ℕ → Option (ℕ × List ℕ)
read_word (a ∷ b ∷ c ∷ d ∷ rest) =
    some (bit_or (d * 2 ^ 24) (bit_or (c * 2 ^ 16) (bit_or (b * 2 ^ 8) a)), rest)
read_word other = none

unfoldable pub write_word : ℕ → List ℕ
write_word v = v % 256 ∷ v / 2 ^ 8 % 256 ∷ v / 2 ^ 16 % 256 ∷ v / 2 ^ 24 % 256 ∷ []

-- Why a container is refused, with the byte where.
pub data IndexError : Type 0 where
  unreadable : IndexError
  truncated_marker : ℕ → IndexError
  trailing_data : ℕ → IndexError
  unsupported_flags : (flags at : ℕ) → IndexError
  truncated_record : (length at : ℕ) → IndexError
  missing_trailer : ℕ → IndexError
  marker_mismatch : (marker trailer at : ℕ) → IndexError

-- The items found, or an error and the items found before it.
pub data Indexing : Type 0 where
  indexed : List Item → Indexing
  refused : IndexError → List Item → Indexing
  out_of_fuel : Indexing

-- What one round of the loop of `index` finds, with the bytes it takes.
pub data Round : Type 0 where
  next_item : Item → (taken : ℕ) → Round
  next_round : (taken : ℕ) → Round
  medium_end : Round
  round_error : IndexError → Round

unfoldable pub padding : ℕ → ℕ
padding count = bit_and count 1

unfoldable pub check_trailer : (start marker count flags : ℕ) → Option (ℕ × List ℕ) → Round
check_trailer start marker count flags none =
    round_error (missing_trailer (start + 4 + count + padding count))
check_trailer start marker count flags (some (trailer, rest)) =
    if trailer == marker
    then next_item (source_item (start + 4) count (flags == error_flag))
        (4 + (count + padding count) + 4)
    else round_error (marker_mismatch marker trailer (start + 4 + (count + padding count)))

-- A data record at the byte `start`, after whose marker so many bytes are left.
unfoldable pub index_fields : (start marker left flags count : ℕ) → List ℕ → Round
index_fields start marker left flags count rest =
    let padded = count + padding count in
    if not (flags == 0) && not (flags == error_flag)
    then round_error (unsupported_flags flags start)
    else if count == 0 || ltb left (padded + 4)
    then round_error (truncated_record count start)
    else check_trailer start marker count flags (read_word (drop padded rest))

unfoldable pub index_record : (start marker left : ℕ) → List ℕ → Round
index_record start marker left rest =
    index_fields start marker left (bit_and marker 0xff000000) (bit_and marker length_mask) rest

unfoldable pub index_marker : (size start : ℕ) → Option (ℕ × List ℕ) → Round
index_marker size start none = round_error (truncated_marker start)
index_marker size start (some (marker, rest)) =
    if marker == tape_mark_word
    then next_item mark_item 4
    else if marker == end_of_medium
    then (if start + 4 == size then medium_end else round_error (trailing_data start))
    else if marker == erase_gap
    then next_round 4
    else index_record start marker (size - (start + 4)) rest

abbrev pub taken : Round → ℕ
taken (next_item item n) = n
taken (next_round n) = n
taken medium_end = 0
taken (round_error e) = 0

abbrev pub found : Round → List Item
found (next_item item n) = item ∷ []
found (next_round n) = []
found medium_end = []
found (round_error e) = []

-- The loop's answer after a round, when it goes on and when it does not.
abbrev pub after_round : Round → List Item → Indexing → Indexing
after_round (next_item item n) items rest = rest
after_round (next_round n) items rest = rest
after_round medium_end items rest = indexed items
after_round (round_error e) items rest = refused e items

-- The loop of `index` from the byte `at`, before which are the items.
unfoldable pub index_loop : (fuel size at : ℕ) → List ℕ → List Item → Indexing
index_loop zero size at bytes items = if ltb at size then out_of_fuel else indexed items
index_loop (suc fuel) size at bytes items =
    let round = index_marker size at (read_word bytes) in
    let rest =
      index_loop fuel size (at + taken round) (drop (taken round) bytes) (items ++ found round) in
    if ltb at size then after_round round items rest else indexed items

-- Each round takes four bytes at least.
unfoldable pub index_file : Option (List ℕ) → Indexing
index_file none = refused unreadable []
index_file (some bytes) = index_loop (length bytes) (length bytes) 0 bytes []

unfoldable pub settle : Tape → Indexing → Option IndexError × Tape
settle t (indexed items) = (none, record t { items = items; dirty = false; cursor = 0 })
settle t (refused e items) = (some e, record t { items = items })
settle t out_of_fuel = (none, t)

-- `index`: the error, or the tape with its items.
unfoldable pub index : Tape → Option IndexError × Tape
index t = settle t (index_file t.file)

-- A text field of a label, which the record may cut, without the blanks at its end.
abbrev pub is_blank : ℕ → Bool
is_blank c = c == 0x20 || c == 0

abbrev pub is_empty : List ℕ → Bool
is_empty [] = true
is_empty (c ∷ rest) = false

unfoldable pub trim_end : List ℕ → List ℕ
trim_end [] = []
trim_end (c ∷ rest) =
    let kept = trim_end rest in if is_blank c && is_empty kept then [] else c ∷ kept

unfoldable pub label_text : List ℕ → (at length : ℕ) → List ℕ
label_text bytes at count = trim_end (to_ascii (take count (drop at bytes)) cp037)

-- The volume serial of a first record that is a volume label.
unfoldable pub label_id : Fetch → List ℕ
label_id (failed fault) = []
label_id (fetched bytes) =
    if not (length bytes == 80)
      || (not (get_or bytes 0 0 == 0xe5)
          || (not (get_or bytes 1 0 == 0xd6)
              || (not (get_or bytes 2 0 == 0xd3) || not (get_or bytes 3 0 == 0xf1))))
    then []
    else label_text bytes 4 6

unfoldable pub volume_id_of : Option (List ℕ) → List Item → List ℕ
volume_id_of file [] = []
volume_id_of file (item ∷ items) =
    if item.mark || not (item.length == 80) then [] else label_id (read_item file item)

unfoldable pub discover_volume_id : Tape → Tape
discover_volume_id t = record t { volume_id = volume_id_of t.file t.items }

unfoldable pub finish_open : Option IndexError × Tape → Option IndexError × Tape
finish_open (some e, t) = (some e, t)
finish_open (none, t) = (none, discover_volume_id t)

-- `open` of a file that exists, or has been made as an empty one.
unfoldable pub open_file : List ℕ → (read_only : Bool) → Option IndexError × Tape
open_file bytes read_only = finish_open (
    index (record {
      file = some bytes;
      read_only = read_only;
      loaded = false;
      dirty = false;
      volume_id = [];
      items = [];
      cursor = 0;
    }))

pub data Stream : Type 0 where
  written : List ℕ → Stream
  broken : ReadFault → Stream

unfoldable pub marker_of : Item → ℕ
marker_of item = bit_or (if item.record_error then error_flag else 0) item.length

unfoldable pub pad : List ℕ → List ℕ
pad bytes = if bit_and (length bytes) 1 == 0 then [] else 0 ∷ []

unfoldable pub write_record : (marker : ℕ) → List ℕ → List ℕ
write_record marker bytes = write_word marker ++ (bytes ++ (pad bytes ++ write_word marker))

abbrev pub prepend : List ℕ → Stream → Stream
prepend bytes (written rest) = written (bytes ++ rest)
prepend bytes (broken fault) = broken fault

unfoldable pub write_fetched : Item → Fetch → Stream → Stream
write_fetched item (fetched bytes) rest = prepend (write_record (marker_of item) bytes) rest
write_fetched item (failed fault) rest = broken fault

-- The bytes of the items one after the other.
unfoldable pub write_items : Option (List ℕ) → List Item → Stream
write_items file [] = written []
write_items file (item ∷ items) =
    let rest = write_items file items in
    if item.mark
    then prepend (write_word tape_mark_word) rest
    else write_fetched item (read_item file item) rest

-- What `flush` throws.
pub data FlushError : Type 0 where
  is_read_only : FlushError
  not_read : ReadFault → FlushError
  not_replaced : FlushError
  not_valid : IndexError → FlushError

unfoldable pub keep_cursor : (saved : ℕ) → Option IndexError × Tape → Option FlushError × Tape
keep_cursor saved (some e, t) = (some (not_valid e), t)
keep_cursor saved (none, t) =
    let size = length t.items in
    (none, discover_volume_id (record t { cursor = if ltb size saved then size else saved }))

unfoldable pub replace_file : (replaced : Bool) → Stream → Tape → Option FlushError × Tape
replace_file replaced (broken fault) t = (some (not_read fault), t)
replace_file false (written bytes) t = (some not_replaced, t)
replace_file true (written bytes) t = keep_cursor t.cursor (index (record t { file = some bytes }))

unfoldable pub flush : (replaced : Bool) → Tape → Option FlushError × Tape
flush replaced t =
    if t.read_only
    then (some is_read_only, t)
    else replace_file replaced (write_items t.file t.items) t

unfoldable pub take_offline : Option FlushError × Tape → Option FlushError × Tape
take_offline (some e, t) = (some e, t)
take_offline (none, t) = (none, record t { loaded = false })

unfoldable pub unload : (replaced : Bool) → Tape → Option FlushError × Tape
unload replaced t = take_offline (if t.loaded && t.dirty then flush replaced t else (none, t))
