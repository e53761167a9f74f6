-- ===== src/Processor/Selection.antt =====
-- L, ST, A, S, LA, LPMR and the branches of src/Processors/MainStorageProcessor.cpp: the operations
-- whose Q-byte selects a register or a condition.
pub mod RoundTrip
use sim.Base.{
  ℕ, ◌+◌, ◌-◌, ◌*◌, ◌/◌, ◌%◌, ◌^◌, bit_and, bit_or, Bool, true, false, not, ◌&&◌, ◌||◌, Option,
  none, some, ltb, leb, ◌==◌, if◌then◌else◌, get_or, set,
}
use sim.Machine.Registers.{
  Registers, has, without, load_psr, pmr, set_pmr, set_bit, privileged, pmr_task_dispatch,
  pmr_not_privileged, pmr_pdir, pmr_pxr1, pmr_pxr2, pmr_piar,
}
use sim.Processor.Instructions.{jump_backward_opcode}
use sim.Processor.Core.{
  Processor, Instruction, msp_of, set_msp, left, read_operand, write_operand, unless_aborted,
  aborted, load_psr_of, stop, not_privileged, invalid_mode_op, psr_high, psr_low, psr_equal,
  psr_decimal_overflow, psr_test_false, psr_binary_overflow,
}
use sim.Processor.Binary.{conditions}

unfoldable pub read_field : Processor → ℕ × Processor
read_field p =
    let (hi, p1) = read_operand true (left 1) p in
    let (lo, p2) = read_operand true (left 0) p1 in (bit_or (hi * 2 ^ 8) lo, p2)

unfoldable pub write_field : ℕ → Processor → Processor
write_field v p =
    write_operand true (left 0) (v % 2 ^ 8) (write_operand true (left 1) (v / 2 ^ 8 % 2 ^ 8) p)

-- What a Q-byte selects. `other` is the default of the source's switch.
pub data Selected : Type 0 where
  nothing index1 index2 status arr_register iar_register : Selected
  work : ℕ → Selected
  prefix_dir prefix_xr1 prefix_xr2 prefix_iar other : Selected

unfoldable pub selected : ℕ → Selected
selected q =
    if q == 0x00
    then nothing
    else if q == 0x01 || q == 0x03 || q == 0x41
    then index1
    else if q == 0x02 || q == 0x42
    then index2
    else if q == 0x04
    then status
    else if q == 0x08 || q == 0x43
    then arr_register
    else if q == 0x10 || q == 0x20 || q == 0x40
    then iar_register
    else if q == 0x44 || q == 0x45 || q == 0x46 || q == 0x47
    then work (q - 0x40)
    else if q == 0xa0
    then prefix_dir
    else if q == 0xa1
    then prefix_xr1
    else if q == 0xa2
    then prefix_xr2
    else if q == 0xa3
    then prefix_iar
    else other

-- An assignment to the IAR is a branch.
unfoldable pub set_iar : ℕ → Processor → Processor
set_iar v p = record (set_msp p (record (msp_of p) { iar = v })) { iar_written = true }

unfoldable pub set_xr1 : ℕ → Processor → Processor
set_xr1 v p = set_msp p (record (msp_of p) { xr1 = v })

unfoldable pub set_xr2 : ℕ → Processor → Processor
set_xr2 v p = set_msp p (record (msp_of p) { xr2 = v })

-- `setSelected`, by what Q selects.
unfoldable pub put_selected : Selected → ℕ → Processor → Processor
unfolding set_iar set_xr1 set_xr2 load_psr_of
put_selected nothing v p = p
put_selected index1 v p = set_xr1 v p
put_selected index2 v p = set_xr2 v p
put_selected status v p = load_psr_of p (v % 2 ^ 8)
put_selected arr_register v p = set_msp p (record (msp_of p) { arr = v })
put_selected iar_register v p = set_iar v p
put_selected (work i) v p = set_msp p (record (msp_of p) { wr = set (msp_of p).wr i v })
put_selected prefix_dir v p =
    let (b, p') = read_operand true (left 2) p in set_msp p' (record (msp_of p') { pact_dir = b })
put_selected prefix_xr1 v p =
    let (b, p') = read_operand true (left 2) p in
    set_xr1 v (set_msp p' (record (msp_of p') { pact_xr1 = b }))
put_selected prefix_xr2 v p =
    let (b, p') = read_operand true (left 2) p in
    set_xr2 v (set_msp p' (record (msp_of p') { pact_xr2 = b }))
put_selected prefix_iar v p =
    let (b, p') = read_operand true (left 2) p in
    set_iar v (set_msp p' (record (msp_of p') { pact_iar = b }))
put_selected other v p = set_xr1 v p

unfoldable pub set_selected : ℕ → ℕ → Processor → Processor
unfolding selected put_selected
set_selected q v p = put_selected (selected q) v p

-- `getSelected`: the value, and the PACT register of the forms that name one.
unfoldable pub value_selected : Selected → Registers → ℕ × Option ℕ
value_selected index1 r = (r.xr1, none)
value_selected index2 r = (r.xr2, none)
value_selected status r = (r.psr, none)
value_selected arr_register r = (r.arr, none)
value_selected iar_register r = (r.iar, none)
value_selected (work i) r = (get_or r.wr i 0, none)
value_selected prefix_dir r = (0, some r.pact_dir)
value_selected prefix_xr1 r = (r.xr1, some r.pact_xr1)
value_selected prefix_xr2 r = (r.xr2, some r.pact_xr2)
value_selected prefix_iar r = (r.iar, some r.pact_iar)
value_selected _ r = (r.xr1, none)

unfoldable pub get_selected : ℕ → Registers → ℕ × Option ℕ
unfolding selected value_selected
get_selected q r = value_selected (selected q) r

unfoldable pub load_register : ℕ → Processor → Processor
load_register q p = let (v, p') = read_field p in unless_aborted p' (set_selected q v)

unfoldable pub store_register : ℕ → Processor → Processor
store_register q p =
    let (v, prefix) = get_selected q (msp_of p) in
    let p' = write_field v p in
    elim prefix [ none ↦ p' | some pact ↦ write_operand true (left 2) pact p' ]

-- The address's upper byte goes to the PACT register of a three-byte form.
unfoldable pub load_address : ℕ → ℕ → Processor → Processor
unfolding selected set_iar set_xr1 set_xr2
load_address q addr p =
    let prefix = addr / 2 ^ 16 % 2 ^ 8 in
    let low = addr % 2 ^ 16 in
    elim (selected q) [
      | prefix_dir ↦ set_msp p (record (msp_of p) { pact_dir = prefix })
      | prefix_xr1 ↦ set_xr1 low (set_msp p (record (msp_of p) { pact_xr1 = prefix }))
      | prefix_xr2 ↦ set_xr2 low (set_msp p (record (msp_of p) { pact_xr2 = prefix }))
      | prefix_iar ↦ set_iar low (set_msp p (record (msp_of p) { pact_iar = prefix }))
      | _ ↦ set_selected q low p
    ]

-- A and S change the two-byte register only, also where Q names a PACT register.
unfoldable pub put_result : Selected → ℕ → Processor → Processor
unfolding set_iar set_xr1 set_xr2
put_result nothing result p = p
put_result prefix_dir result p = p
put_result prefix_xr1 result p = set_xr1 result p
put_result prefix_xr2 result p = set_xr2 result p
put_result prefix_iar result p = set_iar result p
put_result s result p = put_selected s result p

-- The sum before it is cut to 16 bits: S adds the two's complement.
unfoldable pub register_sum : Bool → ℕ → ℕ → ℕ
register_sum subtract reg operand = reg + (if subtract then 0xffff - operand + 1 else operand)

unfoldable pub register_carry : Bool → ℕ → ℕ → Bool
unfolding register_sum
register_carry subtract reg operand =
    if subtract then leb operand reg else ltb 0xffff (register_sum false reg operand)

unfoldable pub register_status : Bool → ℕ → Bool → ℕ → ℕ
unfolding conditions
register_status subtract result carry psr =
    let keep = if subtract then conditions else bit_or conditions psr_binary_overflow in
    let condition = if result == 0 then psr_equal else if carry then psr_high else psr_low in
    let p = bit_or (without psr keep) condition in
    if carry && not subtract then bit_or p psr_binary_overflow else p

-- The result and the status; where Q selects the PSR, the result is the status.
unfoldable pub store_sum : ℕ → Bool → ℕ → ℕ → Processor → Processor
unfolding selected put_result register_sum register_carry register_status load_psr_of
store_sum q subtract reg operand p =
    let result = register_sum subtract reg operand % 2 ^ 16 in
    let stored = put_result (selected q) result p in
    let psr =
      register_status subtract result (register_carry subtract reg operand) (msp_of stored).psr in
    if not (q == 0x04) then load_psr_of stored psr else stored

unfoldable pub add_to_register : ℕ → Bool → Processor → Processor
add_to_register q subtract p =
    let reg = (get_selected q (msp_of p)).0 in
    let (operand, p') = read_field p in unless_aborted p' (store_sum q subtract reg operand)
