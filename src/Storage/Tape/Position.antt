-- ===== src/Storage/Tape/Position.antt =====
-- `readPosition` of src/Storage/SimhTapeBackend.cpp names a place that `restoreTapePosition` of
-- src/Storage/TapeBackend.cpp finds again.
use sim.Base.{
  ==_refl, if_on, ℕ, zero, suc, ◌+◌, ◌-◌, ◌≤◌, ◌<◌, Bool, true, false, List, [], ◌∷◌, ◌==◌, length,
  ◌≡◌, ◌⊎◌, refl, sym, ap, ap₂, subst, ◌∙◌, arith, if-property, inl, inr,
}
use sim.Base.Int.{◌==ℤ◌, ℤ, pos, negsuc}
use sim.Storage.Tape.{
  ok, Item, Tape, rewind, mark_at, forward_records, stored, space_records, forward_loop,
  forward_to_after_next_mark, forward_files, space_files, count_items, read_position, TapePosition,
}
use sim.Storage.Tape.Restore.{
  after_records, after_files, simh, restored, ◌==𝔹◌, same_position, check_position, restore_block,
  restore_file, restore_numbers, restore_tape_position, stopped_short,
}

pub eq_or_lt : (i c : ℕ) → i ≤ c → (i ≡ c) ⊎ (i < c)
eq_or_lt i c h = ground arith

-- No mark among so many items from the place on.
abbrev pub Unmarked : List Item → (from count : ℕ) → Type 0
Unmarked items from count = (i : ℕ) → from ≤ i → i < from + count → mark_at items i ≡ false

-- One more item counted.
abbrev pub counted : Bool → ℕ × ℕ → ℕ × ℕ
counted true (files, blocks) = (suc files, 0)
counted false (files, blocks) = (files, suc blocks)

count_items-suc :
    (c : ℕ) (items : List Item) (f b : ℕ)
    → c < length items
    → count_items (suc c) items f b ≡ counted (mark_at items c) (count_items c items f b)
unfolding count_items mark_at
count_items-suc c [] f b h = absurd (omega arith)
count_items-suc zero (x ∷ xs) f b h = ground arith
count_items-suc (suc c) (x ∷ xs) f b h =
    ground (arith, count_items-suc c xs (f + 1) 0, count_items-suc c xs f (b + 1))

forward_loop-finds :
    (count left : ℕ) (items : List Item) (c : ℕ)
    → count < left
    → Unmarked items c count
    → mark_at items (c + count) ≡ true
    → forward_loop left items c ≡ (true, c + count + 1)
unfolding forward_loop
forward_loop-finds count zero items c h u m = absurd (omega arith)
forward_loop-finds zero (suc left) items c h u m = ground arith
forward_loop-finds (suc count) (suc left) items c h u m =
    let here : mark_at items c ≡ false = u c (omega arith) (omega arith) in
    let index : c + suc count ≡ c + 1 + count = omega arith in
    let rest =
      forward_loop-finds count left items (c + 1) (omega arith)
        (λ i k l. u i (omega arith) (omega arith)) (sym (ap (mark_at items) index) ∙ m) in
    ground (arith, rest)

pub forward_records-Unmarked :
    (count : ℕ) (items : List Item) (spaced c : ℕ)
    → c + count ≤ length items
    → Unmarked items c count
    → forward_records count items spaced c ≡ (ok, spaced + count, c + count)
unfolding forward_records
forward_records-Unmarked zero items spaced c h u = ground arith
forward_records-Unmarked (suc count) items spaced c h u =
    let here : mark_at items c ≡ false = u c (omega arith) (omega arith) in
    let rest =
      forward_records-Unmarked count items (spaced + 1) (c + 1) (omega arith)
        (λ i k l. u i (omega arith) (omega arith)) in
    ground (arith, rest)

forward_files-suc :
    (n : ℕ) (items : List Item) (spaced c spaced' c' next : ℕ)
    → forward_files n items spaced c ≡ (ok, spaced', c')
    → forward_to_after_next_mark items c' ≡ (true, next)
    → forward_files (suc n) items spaced c ≡ (ok, suc spaced', next)
unfolding forward_files
forward_files-suc zero items spaced c spaced' c' next e m = ground (arith, m)
forward_files-suc (suc n) items spaced c spaced' c' next e m =
    let after = (forward_to_after_next_mark items c).1 in
    ground (arith, forward_files-suc n items (spaced + 1) after spaced' c' next)

-- The file and the block lead to the cursor from the start of the tape.
abbrev Leads : List Item → (cursor : ℕ) → ℕ × ℕ → Type 0
Leads items cursor (files, blocks) =
    (start : ℕ) × (start + blocks ≡ cursor)
    × Unmarked items start blocks
    × (forward_files files items 0 0 ≡ (ok, files, start))

next_place : (a c : ℕ) → a ≡ c → ◌≡◌ {A = Bool × ℕ} (true, a + 1) (true, suc c)
next_place a c e = ground arith

Leads-counted :
    (items : List Item) (cursor : ℕ) (at : ℕ × ℕ) (mark : Bool)
    → cursor < length items
    → mark_at items cursor ≡ mark
    → Leads items cursor at
    → Leads items (suc cursor) (counted mark at)
unfolding forward_to_after_next_mark
Leads-counted items cursor (files, blocks) true h m (start, e, u, f) = (
  suc cursor,
  omega arith,
  (λ i k l. absurd (omega arith)),
  forward_files-suc files items 0 0 files start (suc cursor) f (
      forward_loop-finds blocks (length items - start) items start (omega arith) u
        (ap (mark_at items) e ∙ m)
      ∙ next_place _ _ e),
)
Leads-counted items cursor (files, blocks) false h m (start, e, u, f) = (
  start,
  omega arith,
  (λ i k l. elim (eq_or_lt i cursor (omega arith)) [
    | inl same ↦ ap (mark_at items) same ∙ m
    | inr below ↦ u i k (omega arith)
  ]),
  f,
)

count_items-Leads :
    (c : ℕ) (items : List Item) → c ≤ length items → Leads items c (count_items c items 0 0)
unfolding count_items forward_files
count_items-Leads zero items h = (0, omega arith, (λ i k l. absurd (omega arith)), refl)
count_items-Leads (suc c) items h =
    subst (Leads items (suc c)) (sym (count_items-suc c items 0 0 (omega arith))) (
      Leads-counted items c (count_items c items 0 0) (mark_at items c) (omega arith) refl
        (count_items-Leads c items (omega arith)))

equal_bits : (b : Bool) → (b ==𝔹 b) ≡ true
equal_bits true = refl
equal_bits false = refl

equal_integers : (z : ℤ) → (z ==ℤ z) ≡ true
equal_integers (pos n) = ==_refl n
equal_integers (negsuc n) = ==_refl n

same_position_refl : (p : TapePosition) → same_position p p ≡ true
unfolding same_position
same_position_refl p = rw (equal_integers p.file_number) (
    rw (equal_integers p.block_number) (
      rw (equal_bits p.at_tape_mark)
        (rw (equal_bits p.beginning_of_tape) (equal_bits p.end_of_data))))

check_position-here : (t : Tape) → check_position simh (read_position t) t ≡ (restored, t)
unfolding check_position
check_position-here t = rw (same_position_refl (read_position t)) refl

no_files :
    (items : List Item) (files start : ℕ)
    → (files == 0) ≡ true
    → forward_files files items 0 0 ≡ (ok, files, start)
    → start ≡ 0
unfolding forward_files
no_files items zero start z f = cc
no_files items (suc n) start z f = absurd (ground arith)

module _ (t : Tape) (on : t.loaded ≡ true) (h : t.cursor ≤ length t.items) where
  space_records-Unmarked :
      (blocks start : ℕ)
      → start + blocks ≡ t.cursor
      → Unmarked t.items start blocks
      → space_records (pos blocks) (record t { cursor = start }) ≡ (ok, blocks, t)
  unfolding space_records stored
  space_records-Unmarked blocks start e u =
      if_on t.loaded _ _ on
      ∙ ap (stored (record t { cursor = start }))
          (forward_records-Unmarked blocks t.items 0 start (omega arith) u)
      ∙ ap₂ (λ n c. (ok, n, record t { cursor = c })) (omega arith) e

  space_files-start :
      (files start : ℕ)
      → forward_files files t.items 0 0 ≡ (ok, files, start)
      → space_files (pos files) (rewind t) ≡ (ok, files, record t { cursor = start })
  unfolding space_files stored rewind
  space_files-start files start e = if_on t.loaded _ _ on ∙ ap (stored (rewind t)) e

  after_records-all :
      (blocks : ℕ) (wanted : TapePosition) (u : Tape)
      → after_records simh blocks wanted (ok, blocks, u) ≡ check_position simh wanted u
  unfolding after_records stopped_short
  after_records-all blocks wanted u = rw (==_refl blocks) refl

  after_files-all :
      (files blocks : ℕ) (wanted : TapePosition) (u : Tape)
      → after_files simh files blocks wanted (ok, files, u) ≡ restore_block simh blocks wanted u
  unfolding after_files stopped_short
  after_files-all files blocks wanted u = rw (==_refl files) refl

  restore_block-start :
      (blocks start : ℕ)
      → start + blocks ≡ t.cursor
      → Unmarked t.items start blocks
      → restore_block simh blocks (read_position t) (record t { cursor = start }) ≡ (restored, t)
  unfolding restore_block
  restore_block-start blocks start e u =
      let wanted = read_position t in
      if-property (λ r. r ≡ (restored, t)) (blocks == 0) _ _
        (λ none_left.
          let same : start ≡ t.cursor = ground arith in
          ap (λ c. check_position simh wanted (record t { cursor = c })) same
          ∙ check_position-here t)
        (λ some_left.
          ap (after_records simh blocks wanted) (space_records-Unmarked blocks start e u)
          ∙ after_records-all blocks wanted t
          ∙ check_position-here t)

  restore_file-start :
      (files blocks start : ℕ)
      → start + blocks ≡ t.cursor
      → Unmarked t.items start blocks
      → forward_files files t.items 0 0 ≡ (ok, files, start)
      → restore_file simh files blocks (read_position t) (rewind t) ≡ (restored, t)
  unfolding restore_file rewind
  restore_file-start files blocks start e u f =
      let wanted = read_position t in
      if-property (λ r. r ≡ (restored, t)) (files == 0) _ _
        (λ at_load_point.
          ap (λ c. restore_block simh blocks wanted (record t { cursor = c }))
            (sym (no_files t.items files start at_load_point f))
          ∙ restore_block-start blocks start e u)
        (λ further.
          ap (after_files simh files blocks wanted) (space_files-start files start f)
          ∙ after_files-all files blocks wanted (record t { cursor = start })
          ∙ restore_block-start blocks start e u)

-- The position that is read of a loaded tape, whose head is not behind its last item, leads back to
-- the place where it was read, from wherever the tape has been moved.
pub restore_tape_position-read_position :
    (t : Tape) (elsewhere : ℕ)
    → t.loaded ≡ true
    → t.cursor ≤ length t.items
    → restore_tape_position simh (record t { cursor = elsewhere }) (read_position t) ≡ (restored, t)
unfolding restore_tape_position restore_numbers read_position rewind
restore_tape_position-read_position t elsewhere on h =
    let (start, e, u, f) = count_items-Leads t.cursor t.items h in
    restore_file-start t on h (count_items t.cursor t.items 0 0).0
      (count_items t.cursor t.items 0 0).1 start e u f
