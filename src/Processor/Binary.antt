-- ===== src/Processor/Binary.antt =====
-- ALC, SLC, SLI and SRC: binary arithmetic of src/Processors/MainStorageProcessor.cpp.
pub mod AddLogical
pub mod Results
use sim.Base.{
  ℕ, zero, suc, ◌+◌, ◌-◌, ◌*◌, ◌/◌, ◌%◌, ◌^◌, bit_and, bit_or, Bool, true, false, not, ◌||◌, ltb,
  ◌==◌, if◌then◌else◌,
}
use sim.Machine.Registers.{without, has}
use sim.Processor.Core.{
  Processor, msp_of, left, read_operand, write_operand, aborted, unless_aborted, load_psr_of,
  psr_high, psr_low, psr_equal, psr_binary_overflow,
}
use sim.Processor.Characters.{count, compare_bytes, set_compare}

-- The carry out of the bytes so far, and whether any of them is not zero.
pub record Sum : Type 0 where
  pub carry : ℕ
  pub non_zero : Bool

-- The loop of `addLogical` at its `i`th byte: subtraction adds the complement.
unfoldable pub add_loop : Bool → ℕ → ℕ → Sum → Processor → Sum × Processor
add_loop subtract zero i s p = (s, p)
add_loop subtract (suc n) i s p =
    let (d, p1) = read_operand true (left i) p in
    let (sv, p2) = read_operand false (left i) p1 in
    let sum = d + (if subtract then 255 - sv else sv) + s.carry in
    let res = sum % 2 ^ 8 in
    add_loop subtract n (i + 1)
      (record {
        carry = if ltb 0xff sum then 1 else 0;
        non_zero = if not (res == 0) then true else s.non_zero;
      })
      (write_operand true (left i) res p2)

unfoldable pub conditions : ℕ
conditions = bit_or (bit_or psr_high psr_low) psr_equal

-- The byte loaded into the status register. Only an addition changes binary overflow.
unfoldable pub add_status : ℕ → Bool → Sum → ℕ
unfolding conditions
add_status psr subtract s =
    let keep = if subtract then conditions else bit_or conditions psr_binary_overflow in
    let condition =
      if not s.non_zero then psr_equal else if not (s.carry == 0) then psr_high else psr_low in
    let p = bit_or (without psr keep) condition in
    if not (s.carry == 0) then (if subtract then p else bit_or p psr_binary_overflow) else p

unfoldable pub add_logical : ℕ → Bool → Processor → Processor
unfolding add_loop add_status unless_aborted load_psr_of
add_logical q subtract p =
    let (s, p') =
      add_loop subtract (count q) 0 (record { carry = if subtract then 1 else 0; non_zero = false })
        p in
    unless_aborted p' (λ r. load_psr_of r (add_status (msp_of r).psr subtract s))

unfoldable pub subtract_logical_immediate : ℕ → Processor → Processor
unfolding compare_bytes set_compare unless_aborted
subtract_logical_immediate q p =
    let (before, p1) = read_operand true (left 0) p in
    let p2 = write_operand true (left 0) ((before + (255 - q) + 1) % 2 ^ 8) p1 in
    unless_aborted p2 (set_compare (compare_bytes before q))

-- One bit to the right, from the leftmost of the bytes left: the last bit out is the result.
unfoldable pub shift_bit : ℕ → ℕ → Processor → ℕ × Processor
shift_bit zero carry p = (carry, p)
shift_bit (suc i) carry p =
    let (v, p1) = read_operand true (left i) p in
    shift_bit i (bit_and v 0x01) (write_operand true (left i) (bit_or (carry * 2 ^ 7) (v / 2)) p1)

unfoldable pub shift_loop : ℕ → ℕ → Bool → Processor → Bool × Processor
unfolding shift_bit
shift_loop zero len lost p = (lost, p)
shift_loop (suc bits) len lost p =
    let (carry, p') = shift_bit len 0 p in
    shift_loop bits len (if not (carry == 0) then true else lost) p'

unfoldable pub any_non_zero : ℕ → ℕ → Bool → Processor → Bool × Processor
any_non_zero zero i found p = (found, p)
any_non_zero (suc n) i found p =
    let (v, p') = read_operand true (left i) p in
    any_non_zero n (i + 1) (if not (v == 0) then true else found) p'

unfoldable pub shift_status : Bool → Bool → Processor → Processor
unfolding conditions load_psr_of has
shift_status lost non_zero p =
    let psr = without (msp_of p).psr (bit_or conditions psr_binary_overflow) in
    let (last, p') = if non_zero then read_operand true (left 0) p else (0, p) in
    let condition =
      if not non_zero then psr_equal else if has last 0x01 then psr_high else psr_low in
    let with_condition = bit_or psr condition in
    load_psr_of p' (if lost then bit_or with_condition psr_binary_overflow else with_condition)

unfoldable pub shift_right_character : ℕ → Processor → Processor
unfolding shift_loop any_non_zero shift_status unless_aborted
shift_right_character q p =
    let bits = bit_and (q / 2 ^ 4) 0x0f + 1 in
    let len = bit_and q 0x0f + 1 in
    let (lost, p1) = shift_loop bits len false p in
    let (non_zero, p2) = any_non_zero len 0 false p1 in
    unless_aborted p2 (shift_status lost non_zero)
