-- ===== src/Processor/Step.antt =====
-- One instruction: `step` of src/Processors/MainStorageProcessor.cpp with the calls of the control
-- storage processor (src/Processors/ControlStorage/IControlStorageProcessor.h), which is a
-- parameter: its own state is `S`, and a call may change both processors. Traces, the reports of
-- checks and the hook before an instruction only show what happens and are left out.
pub mod Ends
use sim.Base.{
  ℕ, zero, suc, ◌+◌, ◌*◌, ◌/◌, ◌%◌, ◌^◌, bit_and, bit_or, Bool, true, false, not, ◌||◌, Option,
  none, some, List, [], ◌==◌, if◌then◌else◌, get_or,
}
use sim.Machine.Registers.{Registers}
use sim.Machine.State.{
  Machine, StorageProtection, Resolution, real, protection, resolve, clear_fault, atr_task_group0,
}
use sim.Processor.Instructions.{
  OperandMode, Mnemonic, bc, jc, svc, xfer, lpmr, zaz, az, sz, mvx, ed, itc, mvc, clc, alc, slc, st,
  load, add, subtract, tbn, tbf, sbn, sbf, mvi, cli, shift_right, sli, la, mode1, mode2,
}
use sim.Processor.Debug.{Debug, Description, Text, apply_patches_at, at_active_breakpoint}
use sim.Processor.Core.{
  Processor, Instruction, Abort, no_abort, addressing_abort, protection_abort, at_breakpoint,
  protection_stop, unassigned, svc_refused, xfer_refused, msp_of, set_msp, set_machine, stop,
  stop_addressing, decode, logical, effective, left, write_operand, aborted,
}
use sim.Processor.Characters.{
  move_characters, move_hex, compare_characters, compare_immediate, test_bits, set_bits,
  insert_and_test_characters,
}
use sim.Processor.Binary.{add_logical, subtract_logical_immediate, shift_right_character}
use sim.Processor.Zoned.{zero_and_add_zoned, add_zoned, edit}
use sim.Processor.Selection.{load_register, store_register, load_address, add_to_register}
use sim.Processor.Branches.{
  branch_on_condition, jump_on_condition, load_program_mode_register, or_zero,
}

pub data DispatchClass : Type 0 where
  immediate overlapped delayed : DispatchClass

-- `source_member` is empty where no resolver is set.
pub record SvcRequest : Type 0 where
  pub r : ℕ
  pub q : ℕ
  pub inline1 : ℕ
  pub inline2 : ℕ
  pub inline3 : ℕ
  pub dispatch : DispatchClass
  pub source_iar : ℕ
  pub source_member : Text
  pub request_block : ℕ
  pub task_block : ℕ

-- A call's answer, with the state of both processors after it.
pub record Answer (S : Type 0) : Type 0 where
  pub ok : Bool
  pub csp : S
  pub processor : Processor

-- What a processor calls: `IControlStorageProcessor` and the two resolvers of member names.
pub record Control (S : Type 0) : Type 0 where
  pub classify : S → ℕ → DispatchClass
  pub svc : SvcRequest → S → Processor → Answer S
  pub raise_storage_protection : StorageProtection → S → Processor → Answer S
  pub consume_invalid_opcode_check : ℕ → S → Processor → Answer S
  pub extended_control_store : ℕ → ℕ → ℕ → S → Processor → Answer S
  pub member_name : S → Processor → Option Text
  pub member : S → Processor → Option Text

module _ {S : Type 0} (control : Control S) where
  unfoldable pub refuse : S → Processor → Answer S
  refuse s p = record { ok = false; csp = s; processor = p }

  unfoldable pub accept : S → Processor → Answer S
  accept s p = record { ok = true; csp = s; processor = p }

  unfoldable pub recover_protection : S → Processor → Answer S
  unfolding refuse accept stop
  recover_protection s p =
      let a = control.raise_storage_protection p.protection_fault s p in
      if a.ok
      then accept a.csp (record a.processor { at_preemption_point = true })
      else refuse a.csp (stop a.processor (protection_stop a.processor.protection_fault))

  -- By what `abort` was, which is reset before.
  unfoldable pub deliver : Abort → S → Processor → Answer S
  unfolding refuse
  deliver protection_abort s p = recover_protection s (set_machine p (clear_fault p.machine))
  deliver _ s p = refuse s (stop_addressing p)

  unfoldable pub finish_abort : S → Processor → Answer S
  unfolding deliver
  finish_abort s p = deliver p.abort s (record p { abort = no_abort })

  abbrev pub no_text : Option Text → Text
  no_text t = elim t [ none ↦ [] | some x ↦ x ]

  unfoldable pub request : Instruction → S → Processor → SvcRequest
  request insn s p = record {
    r = get_or insn.raw 2 0;
    q = insn.q;
    inline1 = get_or insn.raw 3 0;
    inline2 = get_or insn.raw 4 0;
    inline3 = get_or insn.raw 5 0;
    dispatch = control.classify s (get_or insn.raw 2 0);
    source_iar = insn.address % 2 ^ 16;
    source_member = no_text (control.member s p);
    request_block = 0;
    task_block = 0;
  }

  -- A call that the control processor did not service stops the machine.
  unfoldable pub execute_svc : Instruction → ℕ → S → Processor → Answer S
  unfolding refuse accept stop request
  execute_svc insn next s p =
      let req = request insn s p in
      let a = control.svc req s (set_msp p (record (msp_of p) { iar = next })) in
      let p' = record a.processor {
        instructions = a.processor.instructions + 1;
        at_preemption_point = true;
      } in
      if a.ok then accept a.csp p' else refuse a.csp (stop p' (svc_refused req.r insn.address))

  unfoldable pub transfer : Instruction → S → Processor → Answer S
  unfolding refuse accept stop or_zero
  transfer insn s p =
      let r = or_zero insn.operand2 in
      let p' =
        record (set_msp p (record (msp_of p) { iar = (insn.address + insn.size) % 2 ^ 16 })) {
          instructions = p.instructions + 1;
          at_preemption_point = true;
        } in
      let a = control.extended_control_store insn.q r (insn.address % 2 ^ 16) s p' in
      if a.ok
      then accept a.csp a.processor
      else refuse a.csp (stop a.processor (xfer_refused r insn.address))

  -- The operands' logical addresses, kept for the accesses to their bytes.
  unfoldable pub set_operand1 : OperandMode → Option ℕ → Processor → Processor
  set_operand1 mode none p = p
  set_operand1 mode (some v) p =
      let (log, pact) = logical (msp_of p) mode v in record p { op1_logical = log; op1_pact = pact }

  unfoldable pub set_operand2 : OperandMode → Option ℕ → Processor → Processor
  set_operand2 mode none p = p
  set_operand2 mode (some v) p =
      let (log, pact) = logical (msp_of p) mode v in record p { op2_logical = log; op2_pact = pact }

  unfoldable pub reachable : OperandMode → Option ℕ → Processor → Bool × Processor
  reachable mode none p = (true, p)
  reachable mode (some v) p = effective p mode v

  -- Branches, SVC, XFER, LPMR and LA have no operand in storage.
  unfoldable pub has_address : Mnemonic → ℕ → Bool
  has_address bc opcode = false
  has_address la opcode = false
  has_address m opcode = not (bit_and opcode 0xf0 == 0xf0)

  abbrev pub preempt : Processor → Processor
  preempt p = record p { at_preemption_point = true }

  -- The second operand's logical address and PACT register, or the first's where there is none.
  unfoldable pub last_operand : Instruction → Registers → ℕ × ℕ
  last_operand insn regs = elim insn.operand2 [
    | some v ↦ logical regs (mode2 insn.opcode) v
    | none ↦ logical regs (mode1 insn.opcode) (or_zero insn.operand1)
  ]

  -- LA: the operand's address behind the PACT register of its mode.
  unfoldable pub address_operand : Instruction → Registers → ℕ
  unfolding last_operand
  address_operand insn regs = let (low, pact) = last_operand insn regs in bit_or (pact * 2 ^ 16) low

  -- The operations on storage and registers. Those that end the step themselves are in `execute`.
  unfoldable pub perform : Mnemonic → Instruction → Processor → Processor
  perform mvc insn p = move_characters insn.q p
  perform mvi insn p = write_operand true (left 0) insn.q p
  perform clc insn p = compare_characters insn.q p
  perform cli insn p = compare_immediate insn.q p
  perform alc insn p = add_logical insn.q false p
  perform slc insn p = add_logical insn.q true p
  perform sli insn p = subtract_logical_immediate insn.q p
  perform tbn insn p = preempt (test_bits insn.q true p)
  perform tbf insn p = preempt (test_bits insn.q false p)
  perform sbn insn p = set_bits insn.q true p
  perform sbf insn p = set_bits insn.q false p
  perform mvx insn p = move_hex insn.q p
  perform zaz insn p = zero_and_add_zoned insn.q p
  perform az insn p = add_zoned insn.q false p
  perform sz insn p = add_zoned insn.q true p
  perform shift_right insn p = shift_right_character insn.q p
  perform ed insn p = edit insn.q p
  perform itc insn p = insert_and_test_characters insn.q p
  perform load insn p = load_register insn.q p
  perform st insn p = store_register insn.q p
  perform add insn p = add_to_register insn.q false p
  perform subtract insn p = add_to_register insn.q true p
  perform la insn p = preempt (load_address insn.q (address_operand insn (msp_of p)) p)
  perform _ insn p = p

  -- After the operation: an abort, an access out of storage, or the next instruction.
  unfoldable pub finish : ℕ → S → Processor → Answer S
  unfolding refuse accept aborted
  finish next s p =
      let p' = if p.iar_written then p else set_msp p (record (msp_of p) { iar = next }) in
      if aborted p
      then finish_abort s p
      else if p.machine.faulted
      then refuse s (stop_addressing p)
      else accept s (record p' { instructions = p'.instructions + 1 })

  unfoldable pub own_result : S → Bool × Processor → Answer S
  own_result s (ok, p) = record { ok = ok; csp = s; processor = p }

  unfoldable pub execute : Mnemonic → Instruction → ℕ → S → Processor → Answer S
  unfolding own_result last_operand
  execute svc insn next s p = execute_svc insn next s p
  execute xfer insn next s p = transfer insn s p
  execute lpmr insn next s p = own_result s (load_program_mode_register insn next p)
  execute bc insn next s p =
      own_result s (branch_on_condition insn.q next (last_operand insn (msp_of p)).0 p)
  execute jc insn next s p = own_result s (jump_on_condition insn next p)
  execute m insn next s p = finish next s (perform m insn p)

  -- `if (operand && !effective(…)) return finishAbort();` and then the rest.
  unfoldable pub reach_then :
      OperandMode → Option ℕ → S → Processor → (Processor → Answer S) → Answer S
  reach_then mode operand s p rest =
      let (ok, p') = reachable mode operand p in if not ok then finish_abort s p' else rest p'

  unfoldable pub set_operands : Instruction → Processor → Processor
  unfolding set_operand1 set_operand2
  set_operands insn p =
      set_operand2 (mode2 insn.opcode) insn.operand2
        (set_operand1 (mode1 insn.opcode) insn.operand1 p)

  -- A valid instruction: its operands, the check that they can be reached, the operation.
  unfoldable pub run_instruction : Mnemonic → Instruction → S → Processor → Answer S
  unfolding has_address set_operands
  run_instruction m insn s p =
      let next = (insn.address + insn.size) % 2 ^ 16 in
      let p' = set_operands insn (record p { at_preemption_point = false; iar_written = false }) in
      if not (has_address m insn.opcode)
      then execute m insn next s p'
      else reach_then (mode1 insn.opcode) insn.operand1 s p'
          (λ p1. reach_then (mode2 insn.opcode) insn.operand2 s p1 (execute m insn next s))

  -- An unassigned opcode: a check, or the end of a burst that goes on behind it.
  unfoldable pub unassigned_opcode : Instruction → S → Processor → Answer S
  unfolding refuse accept stop
  unassigned_opcode insn s p =
      let resume_iar = (insn.address + insn.size) % 2 ^ 16 in
      let a =
        control.consume_invalid_opcode_check resume_iar s
          (set_msp p (record (msp_of p) { iar = resume_iar })) in
      let q = a.processor in
      if not a.ok
      then accept a.csp (record q { instructions = q.instructions + 1; at_preemption_point = true })
      else refuse a.csp (stop q (unassigned insn.opcode insn.address))

  unfoldable pub run_operation : Option Mnemonic → Instruction → S → Processor → Answer S
  run_operation none insn s p = unassigned_opcode insn s p
  run_operation (some m) insn s p = run_instruction m insn s p

  unfoldable pub after_decode : Instruction → S → Processor → Answer S
  unfolding refuse run_operation
  after_decode insn s p =
      if p.machine.faulted
      then refuse s (stop_addressing p)
      else run_operation insn.operation insn s p

  -- The instruction at a logical address whose real address is `at`, if it has one.
  unfoldable pub fetch_at : ℕ → Resolution → S → Processor → Answer S
  fetch_at iar (protection f) s p = recover_protection s (record p { protection_fault = f })
  fetch_at iar (real at) s p =
      let (insn, m) = decode p.machine at in
      after_decode (record insn { address = iar }) s (set_machine p m)

  unfoldable pub fetch : S → Processor → Answer S
  unfolding fetch_at
  fetch s p =
      let r = msp_of p in
      fetch_at r.iar (resolve p.machine r.iar r.pact_iar atr_task_group0 false) s p

  unfoldable pub halt_or_fetch : ℕ → Option Description → S → Processor → Answer S
  unfolding refuse stop
  halt_or_fetch iar none s p = fetch s p
  halt_or_fetch iar (some why) s p =
      let d = record p.debug { resume_past = some iar; last_description = why } in
      refuse s (stop (record p { debug = d }) (at_breakpoint iar why))

  -- Patches are made before breakpoints are looked for, and both before the fetch.
  unfoldable pub step : S → Processor → Answer S
  unfolding refuse halt_or_fetch
  step s p =
      let iar = (msp_of p).iar in
      let (d, m) = apply_patches_at p.debug (clear_fault p.machine) iar in
      let p1 = record p { abort = no_abort; debug = d; machine = m } in
      let (d', halt) =
        at_active_breakpoint d iar (control.member_name s p1) (control.member s p1) in
      if p.stopped then refuse s p else halt_or_fetch iar halt s (record p1 { debug = d' })
