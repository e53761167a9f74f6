-- ===== src/Storage/Tape/Flush.antt =====
-- The file that `flush` of src/Storage/SimhTapeBackend.cpp writes is indexed again as the same tape.
use mathlib.Core.List.{append_assoc}
use sim.Base.{
  All, ==_refl, ℕ, ◌+◌, ◌≤◌, true, false, Option, none, some, List, [], ◌∷◌, ◌++◌, ltb, length,
  take, drop, ◌≡◌, refl, sym, ap, ap₂, subst, ◌∙◌, arith, if_off, length-append, drop-append,
  take-append,
}
use sim.Storage.Tape.{Item, source_item, Tape, fetched, read_file, read_item}
use sim.Storage.Tape.Container.{
  volume_id_of, discover_volume_id, write_word, pad, indexed, index_file, index, settle,
  write_record, FlushError, keep_cursor, replace_file, flush,
}
use sim.Storage.Tape.Words.{marker_word}
use sim.Storage.Tape.Blocks.{
  TapeBlock, mark_block, data_block, Holds, Records, Represents, length-Records,
}
use sim.Storage.Tape.Stream.{
  block_bytes, stream, Fits, write_items-stream, item_at, items_at, length-word, index_loop-stream,
}

read_file-inside :
    (before bytes after : List ℕ)
    → read_file (some (before ++ (bytes ++ after))) (length before) (length bytes) ≡ fetched bytes
unfolding read_file
read_file-inside before bytes after =
    let got : take (length bytes) (drop (length before) (before ++ (bytes ++ after))) ≡ bytes =
      ap (take (length bytes)) (drop-append before (bytes ++ after)) ∙ take-append bytes after in
    rw got (rw (==_refl (length bytes)) refl)

-- The item at the end of `before` reads the block written there.
item_at-Holds :
    (before : List ℕ) (b : TapeBlock) (rest : List ℕ)
    → Fits b
    → Holds (some (before ++ (block_bytes b ++ rest))) (item_at (length before) b) b
unfolding block_bytes source_item read_item write_record
item_at-Holds before mark_block rest f = refl
item_at-Holds before (data_block flag bytes) rest (some_bytes, few) =
    let word = write_word (marker_word flag (length bytes)) in
    let after = (pad bytes ++ word) ++ rest in
    let place : length (before ++ word) ≡ length before + 4 =
      omega (arith, length-append before word, length-word (marker_word flag (length bytes))) in
    let shape : (before ++ word) ++ (bytes ++ after)
        ≡ before ++ ((word ++ (bytes ++ (pad bytes ++ word))) ++ rest) =
      append_assoc before word (bytes ++ after)
      ∙ ap (λ inner. before ++ inner)
          (sym (
            append_assoc word (bytes ++ (pad bytes ++ word)) rest
            ∙ ap (λ inner. word ++ inner) (append_assoc bytes (pad bytes ++ word) rest))) in
    (
      refl,
      refl,
      refl,
      ap₂ (λ whole n. read_file (some whole) n (length bytes)) (sym shape) (sym place)
          ∙ read_file-inside (before ++ word) bytes after,
      some_bytes,
      few,
    )

items_at-Records :
    (before : List ℕ) (blocks : List TapeBlock)
    → All Fits blocks
    → Records (some (before ++ stream blocks)) (items_at (length before) blocks) blocks
items_at-Records before [] fits = tt
items_at-Records before (b ∷ bs) (f, fits) =
    let grown : (before ++ block_bytes b) ++ stream bs ≡ before ++ stream (b ∷ bs) =
      append_assoc before (block_bytes b) (stream bs) in
    (
      item_at-Holds before b (stream bs) f,
      subst (λ at. Records (some (before ++ stream (b ∷ bs))) (items_at at bs) bs)
          (length-append before (block_bytes b))
          (subst (λ whole. Records (some whole) (items_at (length (before ++ block_bytes b)) bs) bs)
            grown (items_at-Records (before ++ block_bytes b) bs fits)),
    )

Records-Fits :
    (file : Option (List ℕ)) (items : List Item) (blocks : List TapeBlock)
    → Records file items blocks
    → All Fits blocks
Records-Fits file [] [] r = tt
Records-Fits file [] (b ∷ bs) r = absurd r
Records-Fits file (x ∷ xs) [] r = absurd r
Records-Fits file (x ∷ xs) (mark_block ∷ bs) (h, r) = (tt, Records-Fits file xs bs r)
Records-Fits file (x ∷ xs) (data_block flag bytes ∷ bs) ((m, e, l, f, some_bytes, few), r) =
    ((some_bytes, few), Records-Fits file xs bs r)

-- The file of the blocks is indexed as its items.
index_file-stream :
    (blocks : List TapeBlock)
    → All Fits blocks
    → index_file (some (stream blocks)) ≡ indexed (items_at 0 blocks)
unfolding index_file
index_file-stream blocks fits =
    index_loop-stream blocks (length (stream blocks)) (length (stream blocks)) 0 [] fits
      (omega arith) (omega arith)

abbrev flushed_at : Tape → ℕ → Option FlushError × Tape
flushed_at t c = (none, record t { cursor = c })

not_below : {size count saved : ℕ} → size ≡ count → saved ≤ count → ltb size saved ≡ false
not_below e h = ground arith

-- A tape that may be written and holds these blocks, partly in memory or in the old file, is written
-- whole when the host replaces the file: the new file is accepted and holds the same blocks with
-- their recorded errors, the head is where it was, and nothing is left to write.
pub flush-Represents :
    (t : Tape) (blocks : List TapeBlock)
    → t.read_only ≡ false
    → Represents t blocks
    → (t' : Tape) × (flush true t ≡ (none, t'))
      × Represents t' blocks
      × (t'.file ≡ some (stream blocks))
      × (t'.cursor ≡ t.cursor)
      × (t'.loaded ≡ t.loaded)
      × (t'.dirty ≡ false)
      × (t'.volume_id ≡ volume_id_of t'.file t'.items)
unfolding flush replace_file index settle keep_cursor discover_volume_id Represents
flush-Represents t blocks free (r, h) =
    let fits = Records-Fits t.file t.items blocks r in
    let again = items_at-Records [] blocks fits in
    let t' : Tape = record t {
      file = some (stream blocks);
      items = items_at 0 blocks;
      volume_id = volume_id_of (some (stream blocks)) (items_at 0 blocks);
      dirty = false;
    } in
    (
      t',
      if_off t.read_only _ _ free
          ∙ ap (λ s. replace_file true s t) (write_items-stream t.file t.items blocks r)
          ∙ ap (λ i. keep_cursor t.cursor (settle (record t { file = some (stream blocks) }) i))
              (index_file-stream blocks fits)
          ∙ ap (flushed_at t') (
              if_off (ltb (length (items_at 0 blocks)) t.cursor) _ _
                (not_below (length-Records _ _ _ again) h)),
      (again, h),
      refl,
      refl,
      refl,
      refl,
      refl,
    )
