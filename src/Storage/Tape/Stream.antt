-- ===== src/Storage/Tape/Stream.antt =====
-- The file of a tape of src/Storage/SimhTapeBackend.cpp as the bytes of its blocks: `flush` writes
-- them, and `index` finds them.
use mathlib.Core.List.{append_assoc, append-nil}
use sim.Base.{
  ◌^◌, All, ==_refl, ℕ, zero, suc, ◌+◌, ◌-◌, ◌≤◌, ◌<◌, bit_and, Bool, true, false, ◌||◌, ◌==◌,
  Option, some, List, [], ◌∷◌, ◌++◌, ltb, if◌then◌else◌, length, drop, ◌≡◌, refl, sym, ap, ap₂, ◌∙◌,
  arith, if-property, if_off, length-append, drop-append,
}
use sim.Storage.Tape.{Item, mark_item, source_item, read_item, length_mask}
use sim.Storage.Tape.Container.{
  tape_mark_word, error_flag, read_word, write_word, padding, pad, next_item, check_trailer,
  index_fields, index_record, index_marker, indexed, index_loop, written, marker_of, write_record,
  prepend, write_fetched, write_items,
}
use sim.Storage.Tape.Words.{
  marker_word, read_word-write_word, marker_word-range, marker_word-length, marker_word-flags,
  padding-mod,
}
use sim.Storage.Tape.Blocks.{TapeBlock, mark_block, data_block, Holds, Records}

-- The container's bytes of a block, and of blocks.
unfoldable pub block_bytes : TapeBlock → List ℕ
block_bytes mark_block = write_word tape_mark_word
block_bytes (data_block flag bytes) = write_record (marker_word flag (length bytes)) bytes

abbrev pub stream : List TapeBlock → List ℕ
stream [] = []
stream (b ∷ bs) = block_bytes b ++ stream bs

-- No data block is empty or too long.
abbrev pub Fits : TapeBlock → Type 0
Fits mark_block = Unit {0}
Fits (data_block flag bytes) = (0 < length bytes) × (length bytes ≤ length_mask)

write_item :
    (file : Option (List ℕ)) (item : Item) (b : TapeBlock) (rest : List ℕ)
    → Holds file item b
    → (if item.mark
        then prepend (write_word tape_mark_word) (written rest)
        else write_fetched item (read_item file item) (written rest))
      ≡ written (block_bytes b ++ rest)
unfolding read_item write_fetched marker_of block_bytes marker_word
write_item file item mark_block rest h = rw h refl
write_item file item (data_block flag bytes) rest (m, e, l, f, some_bytes, few) =
    rw m (rw f (rw e (rw l refl)))

pub write_items-stream :
    (file : Option (List ℕ)) (items : List Item) (blocks : List TapeBlock)
    → Records file items blocks
    → write_items file items ≡ written (stream blocks)
unfolding write_items
write_items-stream file [] [] r = refl
write_items-stream file [] (b ∷ bs) r = absurd r
write_items-stream file (x ∷ xs) [] r = absurd r
write_items-stream file (x ∷ xs) (b ∷ bs) (h, r) =
    ap
      (λ rest.
        if x.mark
        then prepend (write_word tape_mark_word) rest
        else write_fetched x (read_item file x) rest)
      (write_items-stream file xs bs r)
    ∙ write_item file x b (stream bs) h

-- The item of a block at the byte `start`.
abbrev pub item_at : (start : ℕ) → TapeBlock → Item
item_at start mark_block = mark_item
item_at start (data_block flag bytes) = source_item (start + 4) (length bytes) flag

abbrev pub items_at : (start : ℕ) → List TapeBlock → List Item
items_at start [] = []
items_at start (b ∷ bs) = item_at start b ∷ items_at (start + length (block_bytes b)) bs

length-pad : (bytes : List ℕ) → length (pad bytes) ≡ padding (length bytes)
unfolding pad padding
length-pad bytes =
    if-property (λ p. length p ≡ padding (length bytes)) (bit_and (length bytes) 1 == 0) [] (0 ∷ [])
      (λ even. ground arith) (λ odd. ground (arith, padding-mod (length bytes)))

pub length-word : (v : ℕ) → length (write_word v) ≡ 4
unfolding write_word
length-word v = refl

length-record :
    (marker : ℕ) (bytes : List ℕ)
    → length (write_record marker bytes) ≡ 4 + (length bytes + padding (length bytes)) + 4
unfolding write_record write_word
length-record marker bytes = omega (
  arith,
  length-append bytes (pad bytes ++ write_word marker),
  length-append (pad bytes) (write_word marker),
  length-pad bytes,
)

drop-padded :
    (bytes word rest : List ℕ)
    → drop (length bytes + padding (length bytes)) ((bytes ++ (pad bytes ++ word)) ++ rest)
      ≡ word ++ rest
drop-padded bytes word rest =
    let size : length (bytes ++ pad bytes) ≡ length bytes + padding (length bytes) =
      omega (arith, length-append bytes (pad bytes), length-pad bytes) in
    let shape : (bytes ++ (pad bytes ++ word)) ++ rest ≡ (bytes ++ pad bytes) ++ (word ++ rest) =
      ap (λ t. t ++ rest) (sym (append_assoc bytes (pad bytes) word))
      ∙ append_assoc (bytes ++ pad bytes) word rest in
    ap₂ drop (sym size) shape ∙ drop-append (bytes ++ pad bytes) (word ++ rest)

check_trailer-same :
    (start marker count : ℕ) (flag : Bool) (rest : List ℕ)
    → check_trailer start marker count (if flag then error_flag else 0) (some (marker, rest))
      ≡ next_item (source_item (start + 4) count flag) (4 + (count + padding count) + 4)
unfolding check_trailer
check_trailer-same start marker count true rest = rw (==_refl marker) refl
check_trailer-same start marker count false rest = rw (==_refl marker) refl

index_fields-record :
    (start marker left count : ℕ) (flag : Bool) (bytes : List ℕ)
    → 0 < count
    → count + padding count + 4 ≤ left
    → index_fields start marker left (if flag then error_flag else 0) count bytes
      ≡ check_trailer start marker count
          (if flag then error_flag else 0)
          (read_word (drop (count + padding count) bytes))
unfolding index_fields
index_fields-record start marker left count true bytes some_bytes enough =
    if_off (count == 0 || ltb left (count + padding count + 4)) _ _ (ground arith)
index_fields-record start marker left count false bytes some_bytes enough =
    if_off (count == 0 || ltb left (count + padding count + 4)) _ _ (ground arith)

index_marker-other :
    (size start marker : ℕ) (rest : List ℕ)
    → 0 < marker
    → marker < 0xff000000
    → index_marker size start (some (marker, rest))
      ≡ index_record start marker (size - (start + 4)) rest
unfolding index_marker
index_marker-other size start marker rest above below = ground arith

-- What follows the marker of a record that was written.
abbrev behind_marker : (marker : ℕ) (bytes rest : List ℕ) → List ℕ
behind_marker marker bytes rest = (bytes ++ (pad bytes ++ write_word marker)) ++ rest

read_word-write_record :
    (marker : ℕ) (bytes rest : List ℕ)
    → marker < 2 ^ 32
    → read_word (write_record marker bytes ++ rest) ≡ some (marker, behind_marker marker bytes rest)
unfolding write_record write_word
read_word-write_record marker bytes rest h =
    read_word-write_word marker (behind_marker marker bytes rest) h

index_marker-mark :
    (size start : ℕ) (rest : List ℕ)
    → index_marker size start (some (tape_mark_word, rest)) ≡ next_item mark_item 4
unfolding index_marker
index_marker-mark size start rest = refl

-- One round of the index finds the block that was written.
index_marker-block :
    (size start : ℕ) (b : TapeBlock) (rest : List ℕ)
    → Fits b
    → start + length (block_bytes b) ≤ size
    → index_marker size start (read_word (block_bytes b ++ rest))
      ≡ next_item (item_at start b) (length (block_bytes b))
unfolding block_bytes index_record
index_marker-block size start mark_block rest fits inside =
    ap (index_marker size start) (read_word-write_word tape_mark_word rest (omega arith))
    ∙ index_marker-mark size start rest
    ∙ ap (next_item mark_item) (sym (length-word tape_mark_word))
index_marker-block size start (data_block flag bytes) rest (some_bytes, few) inside =
    let count = length bytes in
    let marker = marker_word flag count in
    let range = marker_word-range flag count some_bytes few in
    let total = length-record marker bytes in
    let after = behind_marker marker bytes rest in
    ap (index_marker size start) (read_word-write_record marker bytes rest (omega arith))
    ∙ index_marker-other size start marker after range.0 range.1
    ∙ ap₂ (λ flags n. index_fields start marker (size - (start + 4)) flags n after)
        (marker_word-flags flag count few) (marker_word-length flag count few)
    ∙ index_fields-record start marker (size - (start + 4)) count flag after some_bytes
        (omega arith)
    ∙ ap (λ t. check_trailer start marker count (if flag then error_flag else 0) (read_word t))
        (drop-padded bytes (write_word marker) rest)
    ∙ ap (check_trailer start marker count (if flag then error_flag else 0))
        (read_word-write_word marker rest (omega arith))
    ∙ check_trailer-same start marker count flag rest
    ∙ ap (next_item (item_at start (data_block flag bytes))) (sym total)

block_bytes-some : (b : TapeBlock) → 4 ≤ length (block_bytes b)
unfolding block_bytes
block_bytes-some mark_block = omega (arith, length-word tape_mark_word)
block_bytes-some (data_block flag bytes) =
    omega (arith, length-record (marker_word flag (length bytes)) bytes)

-- A round of the loop that finds an item.
index_loop-item :
    (fuel size start : ℕ) (bytes : List ℕ) (items : List Item) (item : Item) (n : ℕ)
    → start < size
    → index_marker size start (read_word bytes) ≡ next_item item n
    → index_loop (suc fuel) size start bytes items
      ≡ index_loop fuel size (start + n) (drop n bytes) (items ++ item ∷ [])
unfolding index_loop
index_loop-item fuel size start bytes items item n below e = rw e (ground arith)

index_loop-end :
    (fuel size start : ℕ) (bytes : List ℕ) (items : List Item)
    → size ≤ start
    → index_loop fuel size start bytes items ≡ indexed items
unfolding index_loop
index_loop-end zero size start bytes items h = ground arith
index_loop-end (suc fuel) size start bytes items h = if_off (ltb start size) _ _ (ground arith)

pub index_loop-stream :
    (blocks : List TapeBlock) (fuel size start : ℕ) (items : List Item)
    → All Fits blocks
    → length (stream blocks) ≤ fuel
    → size ≡ start + length (stream blocks)
    → index_loop fuel size start (stream blocks) items ≡ indexed (items ++ items_at start blocks)
index_loop-stream [] fuel size start items fits enough total =
    index_loop-end fuel size start [] items (omega arith) ∙ ap indexed (sym (append-nil items))
index_loop-stream (b ∷ bs) zero size start items fits enough total =
    absurd (omega (arith, block_bytes-some b, length-append (block_bytes b) (stream bs)))
index_loop-stream (b ∷ bs) (suc fuel) size start items (f, fits) enough total =
    let n = length (block_bytes b) in
    let whole = length-append (block_bytes b) (stream bs) in
    let some_bytes = block_bytes-some b in
    index_loop-item fuel size start (stream (b ∷ bs)) items (item_at start b) n (omega arith)
      (index_marker-block size start b (stream bs) f (omega arith))
    ∙ ap (λ bytes. index_loop fuel size (start + n) bytes (items ++ item_at start b ∷ []))
        (drop-append (block_bytes b) (stream bs))
    ∙ index_loop-stream bs fuel size (start + n) (items ++ item_at start b ∷ []) fits (omega arith)
        (omega arith)
    ∙ ap indexed (append_assoc items (item_at start b ∷ []) (items_at (start + n) bs))
