-- ===== src/Processor/Branches.antt =====
-- BC, JC and LPMR of src/Processors/MainStorageProcessor.cpp: the operations that set the IAR
-- themselves. Their Boolean is the result of the step.
pub mod Taken
use sim.Base.{
  ℕ, ◌+◌, ◌-◌, ◌%◌, ◌^◌, bit_and, bit_or, Bool, true, false, not, Option, none, some, ◌==◌,
  if◌then◌else◌,
}
use sim.Machine.Registers.{
  Registers, has, without, pmr, set_pmr, set_bit, privileged, pmr_task_dispatch, pmr_not_privileged,
  pmr_pdir, pmr_pxr1, pmr_pxr2, pmr_piar,
}
use sim.Processor.Instructions.{jump_backward_opcode}
use sim.Processor.Core.{
  Processor, Instruction, msp_of, set_msp, load_psr_of, stop, not_privileged, invalid_mode_op,
  psr_decimal_overflow, psr_test_false,
}

-- Does the condition hold? A test of these two indicators turns them off.
unfoldable pub condition_true : ℕ → Processor → Bool × Processor
unfolding has load_psr_of
condition_true q p =
    let psr = (msp_of p).psr in
    let mask = bit_and q 0x3f in
    let any = has psr mask in
    let reset_bits = bit_and mask (bit_or psr_test_false psr_decimal_overflow) in
    (
      if has q 0x80 then any else not any,
      if not (reset_bits == 0) then load_psr_of p (without psr reset_bits) else p,
    )

-- The address of the next instruction, one more instruction done.
unfoldable pub go_to : ℕ → Processor → Processor
go_to target p = record (set_msp p (record (msp_of p) { iar = target })) {
  instructions = p.instructions + 1;
}

unfoldable pub branch_on_condition : ℕ → ℕ → ℕ → Processor → Bool × Processor
unfolding condition_true go_to
branch_on_condition q next target p =
    let (taken, p') = condition_true q (record p { at_preemption_point = true }) in
    (
      true,
      if taken
          then go_to target (set_msp p' (record (msp_of p') { arr = next }))
          else go_to next p',
    )

unfoldable pub or_zero : Option ℕ → ℕ
or_zero none = 0
or_zero (some v) = v

unfoldable pub jump_on_condition : Instruction → ℕ → Processor → Bool × Processor
unfolding condition_true go_to or_zero
jump_on_condition insn next p =
    let disp = or_zero insn.operand2 in
    let backwards = insn.opcode == jump_backward_opcode in
    let target = (if backwards then next + 2 ^ 16 - disp else next + disp) % 2 ^ 16 in
    let (taken, p') = condition_true insn.q (record p { at_preemption_point = true }) in
    (true, go_to (if taken then target else next) p')

abbrev mode_bits : ℕ
mode_bits = bit_or pmr_task_dispatch pmr_not_privileged

-- Q 00 replaces all the bits, and the PACT bits with them.
unfoldable pub replace_mode : ℕ → Registers → Registers
replace_mode r regs = record (set_pmr regs r) {
  pact_dir = set_bit (set_pmr regs r).pact_dir (has r pmr_pdir);
  pact_xr1 = set_bit (set_pmr regs r).pact_xr1 (has r pmr_pxr1);
  pact_xr2 = set_bit (set_pmr regs r).pact_xr2 (has r pmr_pxr2);
  pact_iar = set_bit (set_pmr regs r).pact_iar (has r pmr_piar);
}

-- LPMR has stored the mode.
unfoldable pub mode_loaded : ℕ → Processor → Registers → Bool × Processor
unfolding go_to
mode_loaded next p regs =
    (true, record (go_to next (set_msp p regs)) { at_preemption_point = true })

unfoldable pub load_program_mode_register : Instruction → ℕ → Processor → Bool × Processor
unfolding stop mode_loaded or_zero
load_program_mode_register insn next p =
    let r = or_zero insn.operand2 in
    let regs = msp_of p in
    if not (privileged regs)
    then (false, stop p (not_privileged insn.address))
    else if insn.q == 0x80
    then mode_loaded next p
        (set_pmr regs (bit_or (without (pmr regs) mode_bits) (bit_and r mode_bits)))
    else if insn.q == 0x00
    then mode_loaded next p (replace_mode r regs)
    else (false, stop p (invalid_mode_op insn.address))
