-- ===== src/Control/DirectArea.antt =====
-- `DirectArea` of src/Processors/ControlStorage/DirectArea.{h,cpp}: the words of control storage that
-- SVC 0F reads and writes. Numbers that the code expects not to be negative are natural,
-- those of a checkpoint are integers.
pub mod Restored
mod Tests
use sim.Base.{
  ℕ, zero, suc, ◌+◌, ◌-◌, ◌*◌, ◌/◌, ◌%◌, ◌^◌, bit_and, bit_or, Bool, true, false, ◌&&◌, List, [],
  ◌∷◌, leb, ◌==◌, if◌then◌else◌, length,
}
use sim.Base.Int.{ℤ, pos, negsuc}

-- One word with its third byte.
pub record DirectWord : Type 0 where
  pub low : ℕ
  pub high : ℕ
  pub written : Bool

abbrev pub DirectArea : Type 0
DirectArea = ℕ → DirectWord

abbrev pub areas : ℕ
areas = 8

abbrev pub words_per_area : ℕ
words_per_area = 256

abbrev pub words : ℕ
words = areas * words_per_area

abbrev pub blank_word : DirectWord
blank_word = record { low = 0; high = 0; written = false }

abbrev pub blank_area : DirectArea
blank_area = λ w. blank_word

unfoldable pub word : (inline1 inline2 : ℕ) → ℕ
word inline1 inline2 = bit_or (bit_and (inline1 / 2 ^ 4) 0x07 * 2 ^ 8) inline2

unfoldable pub in_range : ℕ → Bool
in_range w = leb 40 w && leb w 1136

unfoldable pub read : DirectArea → ℕ → ℕ
read area w = (area w).low

unfoldable pub read_high : DirectArea → ℕ → ℕ
read_high area w = (area w).high

unfoldable pub was_written : DirectArea → ℕ → Bool
was_written area w = (area w).written

-- A word set from its low half and its third byte.
unfoldable pub set_word : DirectArea → (w low high : ℕ) → DirectArea
set_word area w l h i =
    if w == i then record { low = l % 2 ^ 16; high = h % 2 ^ 8; written = true } else area i

unfoldable pub write : DirectArea → (w value : ℕ) → DirectArea
write area w value = set_word area w value (value / 2 ^ 16)

-- The written words among so many from `i` on.
unfoldable pub capture_words : (left i : ℕ) → DirectArea → List ℤ
capture_words zero i area = []
capture_words (suc n) i area =
    let rest = capture_words n (i + 1) area in
    if (area i).written then pos i ∷ pos (area i).low ∷ pos (area i).high ∷ rest else rest

unfoldable pub capture_checkpoint : DirectArea → List ℤ
capture_checkpoint area = capture_words words 0 area

-- The cast of an `int` to so many bits, before the bits above are dropped.
unfoldable pub unsigned : (width : ℕ) → ℤ → ℕ
unsigned width (pos n) = n
unsigned width (negsuc n) = 2 ^ width - 1 - n % 2 ^ width

unfoldable pub restore_words : List ℤ → DirectArea → Bool × DirectArea
unfolding unsigned
restore_words (negsuc w ∷ l ∷ h ∷ rest) area = (false, area)
restore_words (pos w ∷ l ∷ h ∷ rest) area =
    let done = restore_words rest (set_word area w (unsigned 16 l) (unsigned 8 h)) in
    if leb words w then (false, area) else done
restore_words other area = (true, area)

unfoldable pub restore_checkpoint : List ℤ → Bool × DirectArea
restore_checkpoint values =
    if length values % 3 == 0 then restore_words values blank_area else (false, blank_area)
