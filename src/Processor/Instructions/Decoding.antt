-- ===== src/Processor/Instructions/Decoding.antt =====
-- What the decoding tables promise, for all 256 operation codes.
use sim.Base.{
  ℕ, ◌+◌, ◌≤◌, ◌<◌, ◌≡◌, refl, true, ◌&&◌, Option, none, some, arith, leb, ◌==◌, leb→le,
  if◌then◌else◌,
}
use sim.Base.Table.{all_below, all_below_sound}
use sim.Processor.Instructions.{
  Mnemonic, bc, jc, svc, xfer, lpmr, zaz, az, sz, mvx, ed, itc, mvc, clc, alc, slc, st, load, add,
  subtract, tbn, tbf, sbn, sbf, mvi, cli, shift_right, sli, la, is_svc, operand_widths,
  inline_parameters, insn_length, mnemonic,
}

inline_table : all_below 256 (λ r. leb (inline_parameters r) 3) ≡ true
unfolding all_below inline_parameters
inline_table = refl

inline_parameters-le : (r : ℕ) → r < 256 → inline_parameters r ≤ 3
inline_parameters-le r h =
    leb→le _ _ (all_below_sound 256 (λ x. leb (inline_parameters x) 3) r inline_table h)

abbrev widths : ℕ → ℕ
widths opcode = (operand_widths opcode).0 + (operand_widths opcode).1

widths_table :
    all_below 256
      (λ o. leb 1 (widths o) && leb (widths o) 4 && (if is_svc o then widths o == 1 else true))
    ≡ true
unfolding all_below operand_widths is_svc
widths_table = refl

-- The R-byte that the decoder passes: the third byte of a supervisor call, else none.
abbrev pub r_byte : ℕ → ℕ → Option ℕ
r_byte opcode r = if is_svc opcode then some r else none

-- Every instruction, assigned or not, is from 3 to 6 bytes long, and its operand bytes lie inside it.
insn_length-bounds :
    (opcode r : ℕ)
    → opcode < 256
    → r < 256
    → (3 ≤ insn_length opcode (r_byte opcode r))
      × (insn_length opcode (r_byte opcode r) ≤ 6)
      × (2 + (operand_widths opcode).0 + (operand_widths opcode).1
          ≤ insn_length opcode (r_byte opcode r))
unfolding insn_length
insn_length-bounds opcode r h hr =
    let t = all_below_sound 256 _ opcode widths_table h in
    ground (arith, t, inline_parameters-le r hr)

abbrev pub opcode_of : Mnemonic → ℕ
opcode_of bc = 0xc0
opcode_of jc = 0xf2
opcode_of svc = 0xf4
opcode_of xfer = 0xf5
opcode_of lpmr = 0xf6
opcode_of zaz = 0x04
opcode_of az = 0x06
opcode_of sz = 0x07
opcode_of mvx = 0x08
opcode_of ed = 0x0a
opcode_of itc = 0x0b
opcode_of mvc = 0x0c
opcode_of clc = 0x0d
opcode_of alc = 0x0e
opcode_of slc = 0x0f
opcode_of st = 0x34
opcode_of load = 0x35
opcode_of add = 0x36
opcode_of subtract = 0x37
opcode_of tbn = 0x38
opcode_of tbf = 0x39
opcode_of sbn = 0x3a
opcode_of sbf = 0x3b
opcode_of mvi = 0x3c
opcode_of cli = 0x3d
opcode_of shift_right = 0x3e
opcode_of sli = 0x3f
opcode_of la = 0xc2

-- Decoding is complete: each of the 28 operations is reached from an operation code.
mnemonic-opcode_of : (op : Mnemonic) → mnemonic (opcode_of op) ≡ some op
unfolding mnemonic
mnemonic-opcode_of bc = refl
mnemonic-opcode_of _ = refl
