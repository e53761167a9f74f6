-- ===== src/Storage/Tape/Index.antt =====
-- `index` of src/Storage/SimhTapeBackend.cpp on any file, a container or not.
use mathlib.Core.List.{append-nil}
use sim.Base.{
  ℕ, zero, suc, ◌+◌, ◌-◌, ◌≤◌, ◌<◌, bit_and, Bool, not, ◌&&◌, ◌||◌, ◌==◌, Option, none, some, List,
  [], ◌∷◌, ◌++◌, ltb, length, take, drop, ◌≡◌, ◌≢◌, refl, sym, ap, subst, arith, if-property,
  ==_refl, length-take_le, length-drop,
}
use sim.Base.Bits.{and_low}
use sim.Storage.Tape.{Item, source_item, Tape, fetched, read_file, read_item, length_mask}
use sim.Storage.Tape.Container.{
  IndexError, finish_open, discover_volume_id, tape_mark_word, error_flag, end_of_medium, erase_gap,
  read_word, padding, Round, next_item, next_round, medium_end, round_error, check_trailer,
  index_fields, index_record, index_marker, taken, found, after_round, Indexing, indexed, refused,
  out_of_fuel, index_loop, index_file, index, settle, open_file,
}
use sim.Storage.Tape.Blocks.{
  TapeBlock, mark_block, data_block, Holds, Records, Represents, Records-append,
}

-- An item that is found stands for a block of the file, and every round but the last takes four bytes.
abbrev IsRound : List ℕ → Round → Type 0
IsRound whole (next_item item n) = (4 ≤ n) × (b : TapeBlock) × Holds (some whole) item b
IsRound whole (next_round n) = 4 ≤ n
IsRound whole medium_end = Unit {0}
IsRound whole (round_error e) = Unit {0}

read_file-whole :
    (whole : List ℕ) (at count : ℕ)
    → at + count ≤ length whole
    → (read_file (some whole) at count ≡ fetched (take count (drop at whole)))
      × (length (take count (drop at whole)) ≡ count)
unfolding read_file
read_file-whole whole at count inside =
    let got : length (take count (drop at whole)) ≡ count =
      length-take_le count (drop at whole) (omega (arith, length-drop at whole)) in
    (rw got (rw (==_refl count) refl), got)

check_trailer-IsRound :
    (whole : List ℕ) (at marker count flags : ℕ) (word : Option (ℕ × List ℕ))
    → 0 < count
    → count ≤ length_mask
    → at + 4 + count ≤ length whole
    → IsRound whole (check_trailer at marker count flags word)
unfolding check_trailer source_item read_item
check_trailer-IsRound whole at marker count flags none some_bytes few inside = tt
check_trailer-IsRound whole at marker count flags (some (trailer, rest)) some_bytes few inside =
    let (reads, size) = read_file-whole whole (at + 4) count inside in
    if-property (IsRound whole) (trailer == marker) _ _
      (λ same. (
        omega arith,
        data_block (flags == error_flag) (take count (drop (at + 4) whole)),
        (refl, refl, sym size, reads, omega arith, omega arith),
      ))
      (λ other. tt)

index_fields-IsRound :
    (whole : List ℕ) (at marker flags count : ℕ) (rest : List ℕ)
    → count ≤ length_mask
    → IsRound whole (index_fields at marker (length whole - (at + 4)) flags count rest)
unfolding index_fields
index_fields-IsRound whole at marker flags count rest few =
    if-property (IsRound whole) (not (flags == 0) && not (flags == error_flag)) _ _ (λ other. tt)
      (λ known.
        if-property (IsRound whole)
          (count == 0 || ltb (length whole - (at + 4)) (count + padding count + 4)) _ _
          (λ short. tt)
          (λ long.
            check_trailer-IsRound whole at marker count flags
              (read_word (drop (count + padding count) rest)) (ground arith) few (ground arith)))

index_marker-IsRound :
    (whole : List ℕ) (at : ℕ) (word : Option (ℕ × List ℕ))
    → IsRound whole (index_marker (length whole) at word)
unfolding index_marker index_record
index_marker-IsRound whole at none = tt
index_marker-IsRound whole at (some (marker, rest)) =
    if-property (IsRound whole) (marker == tape_mark_word) _ _
      (λ mark. (omega arith, mark_block, refl))
      (λ c.
        if-property (IsRound whole) (marker == end_of_medium) _ _
          (λ end. if-property (IsRound whole) (at + 4 == length whole) _ _ (λ e. tt) (λ e. tt))
          (λ c.
            if-property (IsRound whole) (marker == erase_gap) _ _ (λ gap. omega arith)
              (λ c.
                index_fields-IsRound whole at marker (bit_and marker 0xff000000)
                  (bit_and marker length_mask) rest (omega (arith, and_low 24 marker)))))

-- The items stand for blocks of the file, those before an error too.
abbrev pub IsIndexed : List ℕ → Indexing → Type 0
IsIndexed whole (indexed items) = (bs : List TapeBlock) × Records (some whole) items bs
IsIndexed whole (refused e items) = (bs : List TapeBlock) × Records (some whole) items bs
IsIndexed whole out_of_fuel = ⊥

found-Records :
    (whole : List ℕ) (round : Round) (items : List Item) (bs : List TapeBlock)
    → IsRound whole round
    → Records (some whole) items bs
    → (bs' : List TapeBlock) × Records (some whole) (items ++ found round) bs'
found-Records whole (next_item item n) items bs (least, b, held) r =
    (bs ++ b ∷ [], Records-append (some whole) items (item ∷ []) bs (b ∷ []) r (held, tt))
found-Records whole (next_round n) items bs h r =
    (bs, subst (λ xs. Records (some whole) xs bs) (sym (append-nil items)) r)
found-Records whole medium_end items bs h r =
    (bs, subst (λ xs. Records (some whole) xs bs) (sym (append-nil items)) r)
found-Records whole (round_error e) items bs h r =
    (bs, subst (λ xs. Records (some whole) xs bs) (sym (append-nil items)) r)

after_round-IsIndexed :
    (whole : List ℕ) (round : Round) (items : List Item) (bs : List TapeBlock) (rest : Indexing)
    → Records (some whole) items bs
    → ((4 ≤ taken round) → IsIndexed whole rest)
    → IsRound whole round
    → IsIndexed whole (after_round round items rest)
after_round-IsIndexed whole (next_item item n) items bs rest r go h = go h.0
after_round-IsIndexed whole (next_round n) items bs rest r go h = go h
after_round-IsIndexed whole medium_end items bs rest r go h = (bs, r)
after_round-IsIndexed whole (round_error e) items bs rest r go h = (bs, r)

index_loop-IsIndexed :
    (fuel : ℕ) (whole : List ℕ) (at : ℕ) (bytes : List ℕ) (items : List Item) (bs : List TapeBlock)
    → length bytes ≡ length whole - at
    → length bytes ≤ fuel
    → Records (some whole) items bs
    → IsIndexed whole (index_loop fuel (length whole) at bytes items)
unfolding index_loop
index_loop-IsIndexed zero whole at bytes items bs left enough r =
    if-property (IsIndexed whole) (ltb at (length whole)) _ _ (λ below. absurd (ground arith))
      (λ end. (bs, r))
index_loop-IsIndexed (suc fuel) whole at bytes items bs left enough r =
    let round = index_marker (length whole) at (read_word bytes) in
    let fine = index_marker-IsRound whole at (read_word bytes) in
    let (bs', r') = found-Records whole round items bs fine r in
    if-property (IsIndexed whole) (ltb at (length whole)) _ _
      (λ below.
        after_round-IsIndexed whole round items bs _ r
          (λ least.
            let shorter = length-drop (taken round) bytes in
            index_loop-IsIndexed fuel whole (at + taken round) (drop (taken round) bytes)
              (items ++ found round) bs' (omega arith) (ground arith) r')
          fine)
      (λ end. (bs, r))

index_file-IsIndexed : (whole : List ℕ) → IsIndexed whole (index_file (some whole))
unfolding index_file
index_file-IsIndexed whole =
    index_loop-IsIndexed (length whole) whole 0 whole [] [] (omega arith) (omega arith) tt

-- The index of any file ends: its loop does not run out of fuel.
pub index_file-ends : (file : Option (List ℕ)) → index_file file ≢ out_of_fuel
unfolding index_file
index_file-ends none e = cc
index_file-ends (some whole) e = subst (IsIndexed whole) e (index_file-IsIndexed whole)

settled :
    (t t' : Tape) (whole : List ℕ) (i : Indexing)
    → t.file ≡ some whole
    → IsIndexed whole i
    → settle t i ≡ (none, t')
    → (bs : List TapeBlock) × Represents t' bs
unfolding settle Represents
settled t t' whole (indexed items) f (bs, r) e =
    subst (λ u. (bs : List TapeBlock) × Represents u bs) (ap (λ p. p.1) e)
      (bs, (subst (λ file. Records file items bs) (sym f) r, omega arith))
settled t t' whole (refused x items) f h e = cc
settled t t' whole out_of_fuel f h e = absurd h

opened :
    (t' : Tape) (bytes : List ℕ) (r : Option IndexError × Tape)
    → finish_open r ≡ (none, t')
    → ((u : Tape) → r ≡ (none, u) → (bs : List TapeBlock) × Represents u bs)
    → (bs : List TapeBlock) × Represents t' bs
unfolding finish_open discover_volume_id Represents
opened t' bytes (some e, u) h found_blocks = cc
opened t' bytes (none, u) h found_blocks =
    subst (λ v. (bs : List TapeBlock) × Represents v bs) (ap (λ p. p.1) h) (found_blocks u refl)

-- A file that is accepted, whatever its bytes, is a tape of blocks that can all be read.
pub open_file-Represents :
    (bytes : List ℕ) (read_only : Bool) (t : Tape)
    → open_file bytes read_only ≡ (none, t)
    → (bs : List TapeBlock) × Represents t bs
unfolding open_file index
open_file-Represents bytes read_only t e =
    opened t bytes _ e
      (λ u. settled _ u bytes (index_file (some bytes)) refl (index_file-IsIndexed bytes))
