-- ===== src/Storage/Tape/Blocks.antt =====
-- What src/Storage/TapeBackend.h promises of a drive: a tape is a list of blocks and tape marks with
-- a head, wherever src/Storage/SimhTapeBackend.cpp keeps their bytes.
use sim.Base.{
  if_off, take-all, length-drop, if_on, ℕ, zero, suc, ◌+◌, ◌≤◌, ◌<◌, Bool, true, false, not, Option,
  some, List, [], ◌∷◌, ◌++◌, ltb, leb, if◌then◌else◌, length, take, drop, get_or, ◌≡◌, refl, sym,
  ap, ap₂, subst, ◌∙◌, arith, if-property, length-take_le,
}
use sim.Base.Int.{pos}
use sim.Storage.Tape.{
  not_ready, write_protected, TapeResult, ok, tape_mark, end_of_data, record_error, Item, mark_item,
  memory_item, Tape, fetched, read_item, Reading, answered, read_block, answer, truncate_forward,
  push_item, length_mask, write_block, write_bytes, block, write_tape_mark,
}

-- A block has a flag for a recorded error.
pub data TapeBlock : Type 0 where
  mark_block : TapeBlock
  data_block : (recorded_error : Bool) → List ℕ → TapeBlock

-- The item stands for the block, whose bytes can be read.
abbrev pub Holds : Option (List ℕ) → Item → TapeBlock → Type 0
Holds file item mark_block = item.mark ≡ true
Holds file item (data_block flag bytes) =
    (item.mark ≡ false)
    × (item.record_error ≡ flag)
    × (item.length ≡ length bytes)
    × (read_item file item ≡ fetched bytes)
    × (0 < length bytes)
    × (length bytes ≤ length_mask)

abbrev pub Records : Option (List ℕ) → List Item → List TapeBlock → Type 0
Records file [] [] = Unit {0}
Records file [] (b ∷ bs) = ⊥
Records file (item ∷ items) [] = ⊥
Records file (item ∷ items) (b ∷ bs) = Holds file item b × Records file items bs

-- The tape holds these blocks, and its head is among them or behind the last.
unfoldable pub Represents : Tape → List TapeBlock → Type 0
Represents t blocks = Records t.file t.items blocks × (t.cursor ≤ length blocks)

pub length-Records :
    (file : Option (List ℕ)) (items : List Item) (blocks : List TapeBlock)
    → Records file items blocks
    → length items ≡ length blocks
length-Records file [] [] r = refl
length-Records file [] (b ∷ bs) r = absurd r
length-Records file (x ∷ xs) [] r = absurd r
length-Records file (x ∷ xs) (b ∷ bs) (h, r) = ap suc (length-Records file xs bs r)

pub Records-append :
    (file : Option (List ℕ)) (items more : List Item) (blocks others : List TapeBlock)
    → Records file items blocks
    → Records file more others
    → Records file (items ++ more) (blocks ++ others)
Records-append file [] more [] others r s = s
Records-append file [] more (b ∷ bs) others r s = absurd r
Records-append file (x ∷ xs) more [] others r s = absurd r
Records-append file (x ∷ xs) more (b ∷ bs) others (h, r) s =
    (h, Records-append file xs more bs others r s)

Records-take :
    (n : ℕ) (file : Option (List ℕ)) (items : List Item) (blocks : List TapeBlock)
    → Records file items blocks
    → Records file (take n items) (take n blocks)
Records-take zero file items blocks r = tt
Records-take (suc n) file [] [] r = tt
Records-take (suc n) file [] (b ∷ bs) r = absurd r
Records-take (suc n) file (x ∷ xs) [] r = absurd r
Records-take (suc n) file (x ∷ xs) (b ∷ bs) (h, r) = (h, Records-take n file xs bs r)

Records-get :
    (i : ℕ) (file : Option (List ℕ)) (items : List Item) (blocks : List TapeBlock)
    → i < length blocks
    → Records file items blocks
    → Holds file (get_or items i mark_item) (get_or blocks i mark_block)
Records-get i file [] [] h r = absurd (omega arith)
Records-get i file [] (b ∷ bs) h r = absurd r
Records-get i file (x ∷ xs) [] h r = absurd r
Records-get zero file (x ∷ xs) (b ∷ bs) h (held, r) = held
Records-get (suc i) file (x ∷ xs) (b ∷ bs) h (held, r) = Records-get i file xs bs (omega arith) r

-- What a drive answers at a block.
abbrev pub answer_of : TapeBlock → Reading
answer_of mark_block = answered tape_mark []
answer_of (data_block flag bytes) = answered (if flag then record_error else ok) bytes

-- A read at the head of so many blocks: the answer, and the head after it.
abbrev pub read_blocks : List TapeBlock → ℕ → Reading × ℕ
read_blocks [] head = (answered end_of_data [], head)
read_blocks (b ∷ bs) zero = (answer_of b, 1)
read_blocks (b ∷ bs) (suc head) = let (r, head') = read_blocks bs head in (r, head' + 1)

read_blocks-inside :
    (bs : List TapeBlock) (head : ℕ)
    → head < length bs
    → read_blocks bs head ≡ (answer_of (get_or bs head mark_block), head + 1)
read_blocks-inside [] head h = absurd (omega arith)
read_blocks-inside (b ∷ bs) zero h = refl
read_blocks-inside (b ∷ bs) (suc head) h =
    ap (λ p. (p.0, p.1 + 1)) (read_blocks-inside bs head (omega arith))
    ∙ ap₂ (λ r n. (r, n)) refl (omega arith)

read_blocks-behind :
    (bs : List TapeBlock) (head : ℕ)
    → length bs ≤ head
    → read_blocks bs head ≡ (answered end_of_data [], head)
read_blocks-behind [] head h = refl
read_blocks-behind (b ∷ bs) zero h = absurd (omega arith)
read_blocks-behind (b ∷ bs) (suc head) h =
    ap (λ p. (p.0, p.1 + 1)) (read_blocks-behind bs head (omega arith))
    ∙ ap₂ (λ r n. (r, n)) refl (omega arith)

-- The answer of a read with the head stored.
abbrev pub read_to : Tape → Reading × ℕ → Reading × Tape
read_to t (r, head) = (r, record t { cursor = head })

abbrev answered_block : TapeBlock → Tape → Reading × Tape
answered_block b t = (answer_of b, t)

read_held :
    (t t' : Tape) (item : Item) (b : TapeBlock)
    → Holds t.file item b
    → (if item.mark then (answered tape_mark [], t') else (answer item (read_item t.file item), t'))
      ≡ answered_block b t'
unfolding answer read_item
read_held t t' item mark_block h = rw h refl
read_held t t' item (data_block flag bytes) (m, e, l, f, some_bytes, few) = rw m (rw f (rw e refl))

-- A read of a loaded tape that holds these blocks answers the block at the head and moves past it:
-- its bytes with the recorded error, or the mark, which the read itself crosses, also where it is the
-- second of two marks in a row; only behind the last block it answers the end of the data and stays.
pub read_block-Represents :
    (t : Tape) (blocks : List TapeBlock)
    → t.loaded ≡ true
    → Represents t blocks
    → read_block t ≡ read_to t (read_blocks blocks t.cursor)
unfolding read_block Represents
read_block-Represents t blocks on (r, h) =
    let size : length t.items ≡ length blocks = length-Records t.file t.items blocks r in
    if_on t.loaded _ _ on
    ∙ if-property (λ a. a ≡ read_to t (read_blocks blocks t.cursor)) (leb (length t.items) t.cursor)
        _ _ (λ behind. ap (read_to t) (sym (read_blocks-behind blocks t.cursor (ground arith))))
        (λ inside.
          let below : t.cursor < length blocks = ground arith in
          read_held t (record t { cursor = t.cursor + 1 }) (get_or t.items t.cursor mark_item)
            (get_or blocks t.cursor mark_block) (Records-get t.cursor t.file t.items blocks below r)
          ∙ ap (read_to t) (sym (read_blocks-inside blocks t.cursor below)))

truncate_forward-take : (t : Tape) → truncate_forward t ≡ record t { items = take t.cursor t.items }
unfolding truncate_forward
truncate_forward-take t =
    if-property (λ u. u ≡ record t { items = take t.cursor t.items })
      (ltb t.cursor (length t.items)) _ _ (λ ahead. refl)
      (λ at_end.
        ap (λ xs. record t { items = xs }) (sym (take-all t.cursor t.items (ground arith))))

-- A write of a block or of a mark: what lay ahead of the head is gone, and the head is behind it.
pub push_item-Represents :
    (t : Tape) (blocks : List TapeBlock) (item : Item) (b : TapeBlock)
    → Represents t blocks
    → Holds t.file item b
    → Represents (push_item item (truncate_forward t)) (take t.cursor blocks ++ b ∷ [])
unfolding push_item Represents
push_item-Represents t blocks item b (r, h) held =
    let kept = record t { items = take t.cursor t.items } in
    let records =
      Records-append t.file kept.items (item ∷ []) (take t.cursor blocks) (b ∷ [])
        (Records-take t.cursor t.file t.items blocks r) (held, tt) in
    subst (λ u. Represents (push_item item u) (take t.cursor blocks ++ b ∷ []))
      (sym (truncate_forward-take t)) (records, omega (arith, length-Records t.file _ _ records))

-- The answer is `ok`, the head is behind the last block, and these are the blocks.
abbrev pub Wrote : List TapeBlock → TapeResult × Tape → Type 0
Wrote blocks (result, t) =
    (result ≡ ok) × Represents t blocks × (t.cursor ≡ length blocks) × (t.dirty ≡ true)

pushed :
    (t : Tape) (blocks : List TapeBlock) (item : Item) (b : TapeBlock)
    → Represents t blocks
    → Holds t.file item b
    → Wrote (take t.cursor blocks ++ b ∷ []) (ok, push_item item (truncate_forward t))
unfolding push_item Represents
pushed t blocks item b r held =
    let (records, h) = push_item-Represents t blocks item b r held in
    (refl, (records, h), length-Records _ _ _ records, refl)

module _ (t : Tape) (blocks : List TapeBlock) (on : t.loaded ≡ true) (free : t.read_only ≡ false)
    (r : Represents t blocks) where
  allowed :
      (r' : TapeResult × Tape)
      → (if not t.loaded then (not_ready, t) else if t.read_only then (write_protected, t) else r')
        ≡ r'
  allowed r' = if_on t.loaded _ _ on ∙ if_off t.read_only _ _ free

  -- On a loaded tape that holds these blocks and may be written, a block of a byte or more that fits
  -- a record's length is written at the head, in place of all that lay ahead.
  pub write_block-appends :
      (data_bytes : List ℕ) (offset count : ℕ)
      → 0 < count
      → count ≤ length_mask
      → offset + count ≤ length data_bytes
      → Wrote
          (take t.cursor blocks ++ data_block false (take count (drop offset data_bytes)) ∷ [])
          (write_block (some data_bytes) (pos offset) (pos count) t)
  unfolding write_block write_bytes block memory_item read_item
  write_block-appends data_bytes offset count some_bytes few inside =
      let got = take count (drop offset data_bytes) in
      let size : length got ≡ count =
        length-take_le count (drop offset data_bytes)
          (omega (arith, length-drop offset data_bytes)) in
      let wrote =
        pushed t blocks (memory_item got) (data_block false got) r
          (refl, refl, refl, refl, omega arith, omega arith) in
      let accepted : block (some data_bytes) (pos offset) (pos count) ≡ some got = ground arith in
      subst (Wrote (take t.cursor blocks ++ data_block false got ∷ []))
        (sym (allowed _ ∙ ap (λ o. write_bytes o t) accepted)) wrote

  write_tape_mark-appends : Wrote (take t.cursor blocks ++ mark_block ∷ []) (write_tape_mark t)
  unfolding write_tape_mark
  write_tape_mark-appends =
      subst (Wrote (take t.cursor blocks ++ mark_block ∷ [])) (sym (allowed _))
        (pushed t blocks mark_item mark_block r refl)
