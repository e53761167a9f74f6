-- ===== src/Processor/Core.antt =====
-- src/Processors/MainStorageProcessor.{h,cpp}: the processor's state, decoding, and the access to
-- the bytes of an operand. An access that is refused sets `abort`; what follows in the same
-- instruction then reads zeros and writes nothing.
pub mod Access
use sim.Base.{
  ℕ, zero, suc, ◌+◌, ◌-◌, ◌%◌, ◌^◌, Bool, true, false, not, Option, none, some, List, [], ◌∷◌, ltb,
  ◌==◌, if◌then◌else◌,
}
use sim.Base.Int.{ℤ, pos}
use sim.Machine.Registers.{Registers}
use sim.Machine.Registers
use sim.Machine.State.{
  Machine, StorageProtection, Resolution, real, protection, resolve, in_range, read_byte, read_half,
  write_byte, clear_fault, atr_task_group0,
}
use sim.Processor.Instructions.{
  OperandMode, direct, xr1, xr2, absent, Mnemonic, is_svc, operand_widths, insn_length, mnemonic,
}
use sim.Processor.Debug.{Debug, Description, plain, Text}

pub data Abort : Type 0 where
  no_abort addressing_abort protection_abort : Abort

-- Why the processor stopped. The source keeps a text made of these parts.
pub data Stop : Type 0 where
  no_reason hardstop softstop : Stop
  halted : Text → Stop
  at_breakpoint : ℕ → Description → Stop
  addressing : ℤ → ℕ → Stop
  protection_stop : StorageProtection → Stop
  unassigned : ℕ → ℕ → Stop
  not_implemented : Mnemonic → ℕ → Stop
  svc_refused xfer_refused : ℕ → ℕ → Stop
  not_privileged invalid_mode_op : ℕ → Stop

pub record Processor : Type 0 where
  pub machine : Machine
  pub debug : Debug
  pub stopped : Bool
  pub stop_reason : Stop
  pub instructions : ℕ
  pub at_preemption_point : Bool
  pub iar_written : Bool
  pub op1_logical : ℕ
  pub op1_pact : ℕ
  pub op2_logical : ℕ
  pub op2_pact : ℕ
  pub abort : Abort
  pub protection_fault : StorageProtection

abbrev pub msp_of : Processor → Registers
msp_of p = p.machine.msp

abbrev pub set_machine : Processor → Machine → Processor
set_machine p m = record p { machine = m }

abbrev pub set_msp : Processor → Registers → Processor
set_msp p r = record p { machine = record p.machine { msp = r } }

unfoldable pub stop : Processor → Stop → Processor
stop p why = record p { stopped = true; stop_reason = why }

unfoldable pub start : Processor → Processor
start p = record p { stopped = false; stop_reason = no_reason }

unfoldable pub softstop_at_preemption : Processor → Processor
unfolding stop
softstop_at_preemption p = if p.at_preemption_point then stop p softstop else p

unfoldable pub reset : Processor → Processor
unfolding Registers.reset
reset p = record (set_msp p (Registers.reset (msp_of p))) {
  stopped = false;
  stop_reason = no_reason;
  at_preemption_point = true;
  instructions = 0;
}

unfoldable pub restore_checkpoint : Processor → Bool → Stop → ℕ → Bool → Processor
restore_checkpoint p stopped reason instructions at_preemption_point = record p {
  stopped = stopped;
  stop_reason = reason;
  instructions = instructions;
  at_preemption_point = at_preemption_point;
  iar_written = false;
  debug = record p.debug { resume_past = none; last_description = plain [] };
}

unfoldable pub stop_addressing : Processor → Processor
unfolding stop clear_fault
stop_addressing p =
    let m = p.machine in stop (set_machine p (clear_fault m)) (addressing m.fault_addr m.fault_len)

pub record Instruction : Type 0 where
  pub address : ℕ
  pub opcode : ℕ
  pub q : ℕ
  pub operand1 : Option ℕ
  pub operand2 : Option ℕ
  pub size : ℕ
  pub operation : Option Mnemonic
  pub raw : List ℕ

unfoldable pub read_width : Machine → ℕ → ℕ → ℕ × Machine
read_width m addr width = if width == 2 then read_half m addr else read_byte m addr

-- An operand of no bytes is absent.
unfoldable pub read_operand_field : Machine → ℕ → ℕ → Option ℕ × Machine
unfolding read_width
read_operand_field m addr width =
    if ltb 0 width then (let (v, m') = read_width m addr width in (some v, m')) else (none, m)

unfoldable pub read_raw : Machine → ℕ → ℕ → List ℕ × Machine
read_raw m addr zero = ([], m)
read_raw m addr (suc n) =
    let (v, m') = read_byte m addr in let (vs, m'') = read_raw m' (addr + 1) n in (v ∷ vs, m'')

-- The third byte of a supervisor call is read for its length.
unfoldable pub read_r_byte : Machine → ℕ → ℕ → Option ℕ × Machine
read_r_byte m opcode addr =
    if is_svc opcode then (let (r, m') = read_byte m (addr + 2) in (some r, m')) else (none, m)

unfoldable pub decode : Machine → ℕ → Instruction × Machine
unfolding read_operand_field read_raw read_r_byte
decode m address =
    let (opcode, m1) = read_byte m address in
    let (q, m2) = read_byte m1 (address + 1) in
    let (r, m3) = read_r_byte m2 opcode address in
    let len = insn_length opcode r in
    let (w1, w2) = operand_widths opcode in
    let (operand1, m4) = read_operand_field m3 (address + 2) w1 in
    let (operand2, m5) = read_operand_field m4 (address + 2 + w1) w2 in
    let (raw, m6) = read_raw m5 address len in
    (
      record {
        address = address;
        opcode = opcode;
        q = q;
        operand1 = operand1;
        operand2 = operand2;
        size = len;
        operation = mnemonic opcode;
        raw = raw;
      },
      m6,
    )

-- The logical address of an operand and the PACT register of its addressing mode.
unfoldable pub logical : Registers → OperandMode → ℕ → ℕ × ℕ
logical r direct value = (value % 2 ^ 16, r.pact_dir)
logical r xr1 value = ((r.xr1 + value) % 2 ^ 16, r.pact_xr1)
logical r xr2 value = ((r.xr2 + value) % 2 ^ 16, r.pact_xr2)
logical r absent value = ((r.arr + value) % 2 ^ 16, r.pact_dir)

-- The check that an operand's address translates; false sets `abort`.
unfoldable pub effective : Processor → OperandMode → ℕ → Bool × Processor
unfolding logical
effective p mode value =
    let (log, pact) = logical (msp_of p) mode value in
    elim (resolve p.machine log pact atr_task_group0 false) [
      | real r ↦ (true, p)
      | protection f ↦ (false, record p { abort = protection_abort; protection_fault = f })
    ]

-- A byte of an operand is named by its distance from the operand's address: to the left of it, where
-- a field that is addressed by its rightmost byte extends, or to the right.
pub data Place : Type 0 where
  left right : ℕ → Place

unfoldable pub shift : ℕ → Place → ℕ
shift log (left i) = (log + 2 ^ 16 - i) % 2 ^ 16
shift log (right i) = (log + i) % 2 ^ 16

unfoldable pub operand_logical : Bool → Processor → ℕ
operand_logical first p = if first then p.op1_logical else p.op2_logical

unfoldable pub operand_pact : Bool → Processor → ℕ
operand_pact first p = if first then p.op1_pact else p.op2_pact

-- `operandByte`: the real address, if the access is granted.
unfoldable pub operand_byte : Bool → Place → Bool → Processor → Option ℕ × Processor
unfolding shift operand_logical operand_pact
operand_byte first place w p = elim p.abort [
  | no_abort ↦
      elim (resolve p.machine (shift (operand_logical first p) place) (operand_pact first p)
        atr_task_group0 w) [
          | real r ↦ if in_range p.machine (pos r) 1 then (some r, p) else (
            none,
            record p { machine = (read_byte p.machine r).1; abort = addressing_abort },
          )
          | protection f ↦ (none, record p { abort = protection_abort; protection_fault = f })
        ]
  | _ ↦ (none, p)
]

unfoldable pub read_operand : Bool → Place → Processor → ℕ × Processor
read_operand first place p =
    let (at, p') = operand_byte first place false p in
    elim at [
      | none ↦ (0, p')
      | some r ↦ let (v, m) = read_byte p'.machine r in (v, set_machine p' m)
    ]

unfoldable pub write_operand : Bool → Place → ℕ → Processor → Processor
write_operand first place v p =
    let (at, p') = operand_byte first place true p in
    elim at [ none ↦ p' | some r ↦ set_machine p' (write_byte p'.machine r v) ]

unfoldable pub aborted : Processor → Bool
aborted p = elim p.abort [ no_abort ↦ false | _ ↦ true ]

-- `if (abort_ != Abort::None) return;` and then the rest.
unfoldable pub unless_aborted : Processor → (Processor → Processor) → Processor
unfolding aborted
unless_aborted p rest = if aborted p then p else rest p

unfoldable pub load_psr_of : Processor → ℕ → Processor
load_psr_of p v = set_msp p (Registers.load_psr (msp_of p) v)

abbrev pub psr_high : ℕ
psr_high = 0x04

abbrev pub psr_low : ℕ
psr_low = 0x02

abbrev pub psr_equal : ℕ
psr_equal = 0x01

abbrev pub psr_decimal_overflow : ℕ
psr_decimal_overflow = 0x08

abbrev pub psr_test_false : ℕ
psr_test_false = 0x10

abbrev pub psr_binary_overflow : ℕ
psr_binary_overflow = 0x20
