-- ===== src/Processor/Characters.antt =====
-- Moves, comparisons, bit tests, ITC: the operations of src/Processors/MainStorageProcessor.cpp
-- on characters. A length in the Q-byte is one less than the count of bytes.
pub mod Move
pub mod Compare
use sim.Base.{
  ℕ, zero, suc, ◌+◌, ◌-◌, ◌*◌, ◌/◌, ◌%◌, ◌^◌, bit_and, bit_or, Bool, true, false, not, ◌&&◌, ltb,
  leb, ◌==◌, if◌then◌else◌,
}
use sim.Machine.Registers.{without}
use sim.Processor.Core.{
  Processor, msp_of, set_msp, left, right, read_operand, write_operand, aborted, unless_aborted,
  load_psr_of, psr_high, psr_low, psr_equal, psr_test_false,
}

abbrev pub count : ℕ → ℕ
count q = q + 1

-- The loop of `moveCharacters` at its `i`th byte.
unfoldable pub move_loop : ℕ → ℕ → Processor → Processor
move_loop zero i p = p
move_loop (suc n) i p =
    let (v, p') = read_operand false (left i) p in
    move_loop n (i + 1) (write_operand true (left i) v p')

unfoldable pub move_characters : ℕ → Processor → Processor
unfolding move_loop
move_characters q p = move_loop (count q) 0 p

-- Bit 1 of Q chooses the half of the source, bit 0x02 the half of the target.
unfoldable pub hex_result : ℕ → ℕ → ℕ → ℕ
hex_result q d sv =
    let half = if not (bit_and q 0x01 == 0) then bit_and sv 0x0f else bit_and (sv / 2 ^ 4) 0x0f in
    if not (bit_and q 0x02 == 0)
    then bit_or (bit_and d 0xf0) half
    else bit_or (bit_and d 0x0f) (half * 2 ^ 4)

unfoldable pub move_hex : ℕ → Processor → Processor
unfolding hex_result
move_hex q p =
    let (d, p1) = read_operand true (left 0) p in
    let (sv, p2) = read_operand false (left 0) p1 in
    write_operand true (left 0) (hex_result q d sv) p2

-- The sign of a comparison.
pub data Compared : Type 0 where
  less same more : Compared

unfoldable pub compare_bytes : ℕ → ℕ → Compared
compare_bytes a b = if ltb a b then less else if ltb b a then more else same

unfoldable pub condition_bit : Compared → ℕ
condition_bit less = psr_low
condition_bit same = psr_equal
condition_bit more = psr_high

unfoldable pub set_compare : Compared → Processor → Processor
unfolding condition_bit load_psr_of
set_compare cmp p = load_psr_of p (
    bit_or (without (msp_of p).psr (bit_or (bit_or psr_high psr_low) psr_equal))
      (condition_bit cmp))

-- From the leftmost byte, `n - 1` places left, until a difference.
unfoldable pub compare_loop : ℕ → Processor → Compared × Processor
compare_loop zero p = (same, p)
compare_loop (suc i) p =
    let (a, p1) = read_operand true (left i) p in
    let (b, p2) = read_operand false (left i) p1 in
    elim (compare_bytes a b) [ same ↦ compare_loop i p2 | cmp ↦ (cmp, p2) ]

unfoldable pub compare_characters : ℕ → Processor → Processor
compare_characters q p =
    let (cmp, p') = compare_loop (count q) p in unless_aborted p' (set_compare cmp)

unfoldable pub compare_immediate : ℕ → Processor → Processor
unfolding compare_bytes set_compare unless_aborted
compare_immediate q p =
    let (a, p') = read_operand true (left 0) p in
    unless_aborted p' (set_compare (compare_bytes a q))

unfoldable pub test_bits : ℕ → Bool → Processor → Processor
unfolding unless_aborted load_psr_of
test_bits mask test_on p =
    let (v, p') = read_operand true (left 0) p in
    let result = if test_on then bit_and v mask == mask else bit_and v mask == 0 in
    unless_aborted p'
      (λ r. if not result then load_psr_of r (bit_or (msp_of r).psr psr_test_false) else r)

-- SBN and SBF.
unfoldable pub set_bits : ℕ → Bool → Processor → Processor
set_bits mask on p =
    let (v, p') = read_operand true (left 0) p in
    write_operand true (left 0) (if on then bit_or v mask else without v mask) p'

unfoldable pub set_arr : ℕ → Processor → Processor
set_arr v p = set_msp p (record (msp_of p) { arr = v })

-- From operand 1's leftmost byte to the right, `n` bytes left of `i`.
unfoldable pub insert_loop : ℕ → ℕ → ℕ → Processor → Processor
unfolding set_arr
insert_loop zero i fill p = unless_aborted p (λ r. set_arr ((r.op1_logical + i) % 2 ^ 16) r)
insert_loop (suc n) i fill p =
    let (v, p') = read_operand true (right i) p in
    let later = insert_loop n (i + 1) fill (write_operand true (right i) fill p') in
    if aborted p'
    then p'
    else if leb 0xf1 v && leb v 0xf9
    then set_arr ((p'.op1_logical + i) % 2 ^ 16) p'
    else later

unfoldable pub insert_and_test_characters : ℕ → Processor → Processor
unfolding insert_loop
insert_and_test_characters q p =
    let (fill, p') = read_operand false (left 0) p in insert_loop (count q) 0 fill p'
