-- ===== src/Processor/Tests.antt =====
-- The theorems on the processor at concrete inputs.
use sim.Base.{
  ℕ, suc, zero, ◌+◌, ◌-◌, ◌*◌, ◌^◌, ◌<◌, ◌≡◌, ◌↔◌, refl, Bool, true, false, none, some, [], ◌∷◌,
  arith,
}
use sim.Base.Int.{negsuc}
use sim.Machine.Registers.{pmr, privileged, or_if, has}
use sim.Machine.State.{real, resolve, clear_fault}
use sim.Machine.Tests.{machine0, registers0, registers0-IsWide}
use sim.Processor.Instructions.{lpmr}
use sim.Processor.Debug.{
  Debug, plain, find, halt_or_pass, resumes_at, ordinary_breakpoint, member_breakpoint,
  first_breakpoint, at_active_breakpoint, apply_patches_at,
}
use sim.Processor.Core.{
  Processor, Instruction, no_abort, no_reason, msp_of, left, shift, operand_logical, operand_pact,
  load_psr_of,
}
use sim.Processor.Core.Access.{Field, IsBytes, bytes, number, store}
use sim.Processor.Characters.{move_characters, compare_characters}
use sim.Processor.Characters.Move.{Distinct, Apart, SameOutside, move_characters-copies}
use sim.Processor.Characters.Compare.{compared_status, compare_characters-number}
use sim.Processor.Selection.{get_selected, add_to_register}
use sim.Processor.Selection.RoundTrip.{wrapped, add_to_register-wrapped}
use sim.Processor.Zoned.{read_zoned, write_zoned}
use sim.Processor.Zoned.Digit.{write_zoned-overflow, read_zoned-write_zoned}
use sim.Processor.Step.{Control, immediate, refuse, halt_or_fetch, step}
use sim.Processor.Step.Ends.{step-stops}

abbrev debug0 : Debug
debug0 = record {
  breakpoints = (0x1000, []) ∷ [];
  member_breakpoints = [];
  resume_past = none;
  last_description = plain [];
  patches = [];
  break_member_filter = [];
  overrun = false;
}

-- Operand 1 at 0x101, operand 2 at 0x201, both by real addresses.
abbrev processor0 : Processor
processor0 = record {
  machine = machine0;
  debug = debug0;
  stopped = false;
  stop_reason = no_reason;
  instructions = 0;
  at_preemption_point = true;
  iar_written = false;
  op1_logical = 0x101;
  op1_pact = 0;
  op2_logical = 0x201;
  op2_pact = 0;
  abort = no_abort;
  protection_fault = record { address = 0; for_write = false };
}

-- The same with operand 2 one byte to the right of operand 1.
abbrev processor1 : Processor
processor1 = record processor0 { op2_logical = 0x102 }

abbrev near : ℕ → ℕ
near i = 0x101 - i

abbrev far : ℕ → ℕ
far i = 0x201 - i

abbrev beside : ℕ → ℕ
beside i = 0x102 - i

near_granted :
    (i : ℕ) → i < 2 → (w : Bool) → resolve machine0 (shift 0x101 (left i)) 0 64 w ≡ real (near i)
unfolding resolve shift
near_granted zero lt w = refl
near_granted (suc zero) lt w = refl
near_granted (suc (suc i)) lt w = absurd (omega arith)

far_granted :
    (i : ℕ) → i < 2 → (w : Bool) → resolve machine0 (shift 0x201 (left i)) 0 64 w ≡ real (far i)
unfolding resolve shift
far_granted zero lt w = refl
far_granted (suc zero) lt w = refl
far_granted (suc (suc i)) lt w = absurd (omega arith)

beside_granted :
    (i : ℕ) → i < 2 → (w : Bool) → resolve machine0 (shift 0x102 (left i)) 0 64 w ≡ real (beside i)
unfolding resolve shift
beside_granted zero lt w = refl
beside_granted (suc zero) lt w = refl
beside_granted (suc (suc i)) lt w = absurd (omega arith)

near-Field : Field processor0 true 2 near
unfolding operand_logical operand_pact
near-Field = record { clear = refl; granted = near_granted; inside = λ i lt. omega arith }

near1-Field : Field processor1 true 2 near
unfolding operand_logical operand_pact
near1-Field = record { clear = refl; granted = near_granted; inside = λ i lt. omega arith }

far-Field : Field processor0 false 2 far
unfolding operand_logical operand_pact
far-Field = record { clear = refl; granted = far_granted; inside = λ i lt. omega arith }

beside-Field : Field processor1 false 2 beside
unfolding operand_logical operand_pact
beside-Field = record { clear = refl; granted = beside_granted; inside = λ i lt. omega arith }

near-Distinct : Distinct 2 near
near-Distinct j k lj lk e = omega arith

apart0 : Apart 2 near far
apart0 j k lj lk e = absurd (omega arith)

bytes0 : IsBytes (bytes processor0)
bytes0 a = omega arith

halts : at_active_breakpoint debug0 0x1000 none none ≡ (debug0, some (plain []))
unfolding at_active_breakpoint member_breakpoint first_breakpoint ordinary_breakpoint find
    halt_or_pass resumes_at
halts = refl

move_characters-copies_example :
    (f : ℕ → ℕ) × (move_characters 1 processor0 ≡ store processor0 f)
    × ((k : ℕ) → k < 2 → f (near k) ≡ bytes processor0 (far k))
    × SameOutside 2 near (bytes processor0) f
move_characters-copies_example =
    move_characters-copies 1 processor0 near far near-Field far-Field near-Distinct apart0

compare_characters-number_example :
    compare_characters 1 processor0
    ≡ load_psr_of processor0
        (compared_status 0x01 (number (bytes processor0) near 2) (number (bytes processor0) far 2))
compare_characters-number_example =
    compare_characters-number 1 processor0 near far near-Field far-Field bytes0

add_to_register-wrapped_example :
    (get_selected 0x01 (msp_of (add_to_register 0x01 true processor0))).0
    ≡ wrapped true
        (get_selected 0x01 (msp_of processor0)).0
        (bytes processor0 (near 1) * 256 + bytes processor0 (near 0))
add_to_register-wrapped_example =
    add_to_register-wrapped 0x01 true processor0 near near-Field bytes0 registers0-IsWide
      (λ e. absurd (omega arith)) (λ e. absurd (omega arith)) (λ e. absurd (omega arith))

abbrev insn0 : Instruction
insn0 = record {
  address = 0x1000;
  opcode = 0xf6;
  q = 0;
  operand1 = none;
  operand2 = some 0x9f;
  size = 3;
  operation = some lpmr;
  raw = 0xf6 ∷ 0 ∷ 0x9f ∷ [];
}

privileged0 : privileged registers0 ≡ true
unfolding privileged pmr or_if has
privileged0 = refl

write_zoned-overflow_example : (write_zoned 2 (negsuc 41) processor0).0 ≡ false ↔ 42 < 10 ^ 2
write_zoned-overflow_example = write_zoned-overflow processor0 2 near (negsuc 41) near-Field

read_zoned-write_zoned_example :
    (read_zoned true 2 (write_zoned 2 (negsuc 41) processor0).1).0 ≡ negsuc 41
read_zoned-write_zoned_example =
    read_zoned-write_zoned processor0 1 near (negsuc 41) near-Field near-Distinct (omega arith)
      (omega arith)

-- A control processor that refuses every call.
abbrev control0 : Control Unit
control0 = record {
  classify = λ s r. immediate;
  svc = λ req s p. record { ok = false; csp = s; processor = p };
  raise_storage_protection = λ f s p. record { ok = false; csp = s; processor = p };
  consume_invalid_opcode_check = λ a s p. record { ok = true; csp = s; processor = p };
  extended_control_store = λ q r a s p. record { ok = false; csp = s; processor = p };
  member_name = λ s p. none;
  member = λ s p. none;
}

step-false : (step control0 tt processor0).ok ≡ false
unfolding step apply_patches_at clear_fault at_active_breakpoint member_breakpoint first_breakpoint
    ordinary_breakpoint find halt_or_pass resumes_at halt_or_fetch refuse
step-false = refl

step-stops_example : (step control0 tt processor0).processor.stopped ≡ true
step-stops_example = step-stops control0 tt processor0 step-false
