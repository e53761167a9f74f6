-- ===== src/Processor/Step/Ends.antt =====
-- How a step of src/Processors/MainStorageProcessor.cpp ends.
use sim.Base.{ℕ, ◌+◌, ◌%◌, ◌^◌, refl, true, false, Option, none, some, ◌≡◌, arith}
use sim.Processor.Core.{
  Processor, Instruction, stop, stop_addressing, set_machine, msp_of, decode, Abort, no_abort,
  addressing_abort, protection_abort,
}
use sim.Processor.Instructions.{
  Mnemonic, OperandMode, bc, jc, svc, xfer, lpmr, zaz, az, sz, mvx, ed, itc, mvc, clc, alc, slc, st,
  load, add, subtract, tbn, tbf, sbn, sbf, mvi, cli, shift_right, sli, la, mode1, mode2,
}
use sim.Machine.State.{Resolution, real, protection, resolve, clear_fault, atr_task_group0}
use sim.Processor.Debug.{Description, apply_patches_at, at_active_breakpoint}
use sim.Processor.Branches.{
  branch_on_condition, jump_on_condition, load_program_mode_register, mode_loaded,
}
use sim.Processor.Step.{
  Control, Answer, refuse, accept, recover_protection, deliver, finish_abort, execute_svc, perform,
  reachable, reach_then, set_operands, run_operation, fetch_at, halt_or_fetch, transfer, finish,
  own_result, execute, run_instruction, unassigned_opcode, after_decode, fetch, step,
}

-- An answer of false comes with a processor that has stopped.
abbrev pub StopsIfFalse : {S : Type 0} → Answer S → Type 0
StopsIfFalse a = a.ok ≡ false → a.processor.stopped ≡ true

module _ {S : Type 0} (control : Control S) where
  recover_protection-stops : (s : S) (p : Processor) → StopsIfFalse (recover_protection control s p)
  unfolding recover_protection accept refuse stop
  recover_protection-stops s p h = ground arith

  deliver-stops : (a : Abort) (s : S) (p : Processor) → StopsIfFalse (deliver control a s p)
  unfolding deliver refuse stop_addressing stop
  deliver-stops protection_abort s p h =
      recover_protection-stops s (set_machine p (clear_fault p.machine)) h
  deliver-stops no_abort s p h = refl
  deliver-stops addressing_abort s p h = refl

  finish_abort-stops : (s : S) (p : Processor) → StopsIfFalse (finish_abort control s p)
  unfolding finish_abort
  finish_abort-stops s p = deliver-stops p.abort s (record p { abort = no_abort })

  finish-stops : (next : ℕ) (s : S) (p : Processor) → StopsIfFalse (finish control next s p)
  unfolding finish accept refuse stop_addressing stop
  finish-stops next s p h = let f = finish_abort-stops s p in ground arith

  execute_svc-stops :
      (insn : Instruction) (next : ℕ) (s : S) (p : Processor)
      → StopsIfFalse (execute_svc control insn next s p)
  unfolding execute_svc accept refuse stop
  execute_svc-stops insn next s p h = ground arith

  transfer-stops :
      (insn : Instruction) (s : S) (p : Processor) → StopsIfFalse (transfer control insn s p)
  unfolding transfer accept refuse stop
  transfer-stops insn s p h = ground arith

  mode-stops :
      (insn : Instruction) (next : ℕ) (s : S) (p : Processor)
      → StopsIfFalse (own_result control s (load_program_mode_register insn next p))
  unfolding own_result load_program_mode_register mode_loaded stop
  mode-stops insn next s p h = ground arith

  execute-stops :
      (m : Mnemonic) (insn : Instruction) (next : ℕ) (s : S) (p : Processor)
      → StopsIfFalse (execute control m insn next s p)
  unfolding execute own_result branch_on_condition jump_on_condition
  execute-stops svc insn next s p h = execute_svc-stops insn next s p h
  execute-stops xfer insn next s p h = transfer-stops insn s p h
  execute-stops lpmr insn next s p h = mode-stops insn next s p h
  execute-stops bc insn next s p h = ground arith
  execute-stops jc insn next s p h = ground arith
  execute-stops zaz insn next s p h = finish-stops next s (perform control zaz insn p) h
  execute-stops az insn next s p h = finish-stops next s (perform control az insn p) h
  execute-stops sz insn next s p h = finish-stops next s (perform control sz insn p) h
  execute-stops mvx insn next s p h = finish-stops next s (perform control mvx insn p) h
  execute-stops ed insn next s p h = finish-stops next s (perform control ed insn p) h
  execute-stops itc insn next s p h = finish-stops next s (perform control itc insn p) h
  execute-stops mvc insn next s p h = finish-stops next s (perform control mvc insn p) h
  execute-stops clc insn next s p h = finish-stops next s (perform control clc insn p) h
  execute-stops alc insn next s p h = finish-stops next s (perform control alc insn p) h
  execute-stops slc insn next s p h = finish-stops next s (perform control slc insn p) h
  execute-stops st insn next s p h = finish-stops next s (perform control st insn p) h
  execute-stops load insn next s p h = finish-stops next s (perform control load insn p) h
  execute-stops add insn next s p h = finish-stops next s (perform control add insn p) h
  execute-stops subtract insn next s p h = finish-stops next s (perform control subtract insn p) h
  execute-stops tbn insn next s p h = finish-stops next s (perform control tbn insn p) h
  execute-stops tbf insn next s p h = finish-stops next s (perform control tbf insn p) h
  execute-stops sbn insn next s p h = finish-stops next s (perform control sbn insn p) h
  execute-stops sbf insn next s p h = finish-stops next s (perform control sbf insn p) h
  execute-stops mvi insn next s p h = finish-stops next s (perform control mvi insn p) h
  execute-stops cli insn next s p h = finish-stops next s (perform control cli insn p) h
  execute-stops shift_right insn next s p h =
      finish-stops next s (perform control shift_right insn p) h
  execute-stops sli insn next s p h = finish-stops next s (perform control sli insn p) h
  execute-stops la insn next s p h = finish-stops next s (perform control la insn p) h

  reach_then-stops :
      (mode : OperandMode) (operand : Option ℕ) (s : S) (p : Processor)
      (rest : Processor → Answer S)
      → ((q : Processor) → StopsIfFalse (rest q))
      → StopsIfFalse (reach_then control mode operand s p rest)
  unfolding reach_then
  reach_then-stops mode operand s p rest k h =
      let (ok, p') = reachable control mode operand p in
      let f = finish_abort-stops s p' in let g = k p' in ground arith

  run_instruction-stops :
      (m : Mnemonic) (insn : Instruction) (s : S) (p : Processor)
      → StopsIfFalse (run_instruction control m insn s p)
  unfolding run_instruction
  run_instruction-stops m insn s p h =
      let next = (insn.address + insn.size) % 2 ^ 16 in
      let p' =
        set_operands control insn (record p { at_preemption_point = false; iar_written = false }) in
      let run = execute-stops m insn next s in
      let now = run p' in
      let later =
        reach_then-stops (mode1 insn.opcode) insn.operand1 s p'
          (λ p1.
            reach_then control (mode2 insn.opcode) insn.operand2 s p1
              (execute control m insn next s))
          (λ q.
            reach_then-stops (mode2 insn.opcode) insn.operand2 s q (execute control m insn next s)
              run) in
      ground arith

  unassigned_opcode-stops :
      (insn : Instruction) (s : S) (p : Processor)
      → StopsIfFalse (unassigned_opcode control insn s p)
  unfolding unassigned_opcode accept refuse stop
  unassigned_opcode-stops insn s p h = ground arith

  run_operation-stops :
      (m : Option Mnemonic) (insn : Instruction) (s : S) (p : Processor)
      → StopsIfFalse (run_operation control m insn s p)
  unfolding run_operation
  run_operation-stops none insn s p = unassigned_opcode-stops insn s p
  run_operation-stops (some m) insn s p = run_instruction-stops m insn s p

  after_decode-stops :
      (insn : Instruction) (s : S) (p : Processor) → StopsIfFalse (after_decode control insn s p)
  unfolding after_decode refuse stop_addressing stop
  after_decode-stops insn s p h =
      let f = run_operation-stops insn.operation insn s p in ground arith

  fetch_at-stops :
      (iar : ℕ) (at : Resolution) (s : S) (p : Processor)
      → StopsIfFalse (fetch_at control iar at s p)
  unfolding fetch_at
  fetch_at-stops iar (protection f) s p =
      recover_protection-stops s (record p { protection_fault = f })
  fetch_at-stops iar (real at) s p =
      after_decode-stops (record ((decode p.machine at).0) { address = iar }) s
        (set_machine p (decode p.machine at).1)

  halt_or_fetch-stops :
      (iar : ℕ) (halt : Option Description) (s : S) (p : Processor)
      → StopsIfFalse (halt_or_fetch control iar halt s p)
  unfolding halt_or_fetch fetch refuse stop
  halt_or_fetch-stops iar none s p h =
      fetch_at-stops (msp_of p).iar
        (resolve p.machine (msp_of p).iar (msp_of p).pact_iar atr_task_group0 false) s p h
  halt_or_fetch-stops iar (some why) s p h = refl

  -- A step that answers false leaves the processor stopped, on every path through the
  -- instruction and whatever the control storage processor answers.
  pub step-stops :
      (s : S) (p : Processor)
      → (step control s p).ok ≡ false
      → (step control s p).processor.stopped ≡ true
  unfolding step refuse
  step-stops s p h =
      let iar = (msp_of p).iar in
      let (d, m) = apply_patches_at p.debug (clear_fault p.machine) iar in
      let p1 = record p { abort = no_abort; debug = d; machine = m } in
      let (d', halt) =
        at_active_breakpoint d iar (control.member_name s p1) (control.member s p1) in
      let f = halt_or_fetch-stops iar halt s (record p1 { debug = d' }) in ground arith
