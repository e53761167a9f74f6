-- ===== src/Storage/Tape/Words.antt =====
-- The words of the container of src/Storage/SimhTapeBackend.cpp: little-endian words, and the marker
-- of a record with its flag and its length.
use sim.Base.{
  ℕ, ◌+◌, ◌*◌, ◌/◌, ◌%◌, ◌^◌, ◌≤◌, ◌<◌, bit_and, bit_or, Bool, true, false, some, List, ◌++◌,
  if◌then◌else◌, ◌≡◌, ap, ◌∙◌, arith,
}
use sim.Base.Bits.{or_fields, and_high, and_low}
use sim.Storage.Tape.{length_mask}
use sim.Storage.Tape.Container.{read_word, write_word, error_flag, padding}

sum_of_bytes :
    (v : ℕ)
    → v < 2 ^ 32
    → v / 2 ^ 24 % 256 * 2 ^ 24 + (v / 2 ^ 16 % 256 * 2 ^ 16 + (v / 2 ^ 8 % 256 * 2 ^ 8 + v % 256))
      ≡ v
sum_of_bytes v h = omega arith

joined :
    (a b c d : ℕ)
    → a < 256
    → b < 256
    → c < 256
    → bit_or (d * 2 ^ 24) (bit_or (c * 2 ^ 16) (bit_or (b * 2 ^ 8) a))
      ≡ d * 2 ^ 24 + (c * 2 ^ 16 + (b * 2 ^ 8 + a))
joined a b c d h i j = rw (or_fields 8 b a (omega arith)) (
    rw (or_fields 16 c (b * 2 ^ 8 + a) (omega arith))
      (or_fields 24 d (c * 2 ^ 16 + (b * 2 ^ 8 + a)) (omega arith)))

pub read_word-write_word :
    (v : ℕ) (rest : List ℕ) → v < 2 ^ 32 → read_word (write_word v ++ rest) ≡ some (v, rest)
unfolding read_word write_word
read_word-write_word v rest h =
    ap (λ n. some (n, rest))
      (joined (v % 256) (v / 2 ^ 8 % 256) (v / 2 ^ 16 % 256) (v / 2 ^ 24 % 256) (omega arith)
          (omega arith) (omega arith)
        ∙ sum_of_bytes v h)

-- The marker of a record of so many bytes.
unfoldable pub marker_word : Bool → ℕ → ℕ
marker_word flag count = bit_or (if flag then error_flag else 0) count

marker_sum :
    (flag : Bool) (count : ℕ)
    → count ≤ length_mask
    → marker_word flag count ≡ (if flag then 128 else 0) * 2 ^ 24 + count
unfolding marker_word
marker_sum true count h = or_fields 24 128 count (omega arith)
marker_sum false count h = or_fields 24 0 count (omega arith)

pub marker_word-range :
    (flag : Bool) (count : ℕ)
    → 0 < count
    → count ≤ length_mask
    → (0 < marker_word flag count) × (marker_word flag count < 0xff000000)
marker_word-range true count some_bytes h = omega (arith, marker_sum true count h)
marker_word-range false count some_bytes h = omega (arith, marker_sum false count h)

pub marker_word-length :
    (flag : Bool) (count : ℕ)
    → count ≤ length_mask
    → bit_and (marker_word flag count) length_mask ≡ count
marker_word-length true count h =
    omega (arith, and_low 24 (marker_word true count), marker_sum true count h)
marker_word-length false count h =
    omega (arith, and_low 24 (marker_word false count), marker_sum false count h)

flags_of :
    (word high count : ℕ)
    → word ≡ high * 2 ^ 24 + count
    → count ≤ length_mask
    → bit_and word 0xff000000 ≡ bit_and high 255 * 2 ^ 24
flags_of word high count e h =
    let top : word / 2 ^ 24 ≡ high = omega arith in
    and_high 24 word 255 ∙ ap (λ n. bit_and n 255 * 2 ^ 24) top

pub marker_word-flags :
    (flag : Bool) (count : ℕ)
    → count ≤ length_mask
    → bit_and (marker_word flag count) 0xff000000 ≡ (if flag then error_flag else 0)
marker_word-flags true count h =
    flags_of (marker_word true count) 128 count (marker_sum true count h) h
marker_word-flags false count h =
    flags_of (marker_word false count) 0 count (marker_sum false count h) h

pub padding-mod : (count : ℕ) → padding count ≡ count % 2
unfolding padding
padding-mod count = and_low 1 count
