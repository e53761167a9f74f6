-- ===== src/Processor/Instructions.antt =====
-- src/Processors/InstructionSet.{h,cpp}, and the inline parameter counts of
-- src/Processors/ControlStorage/SvcTable.cpp: how an operation code is taken apart.
pub mod Decoding
use sim.Base.{
  ℕ, ◌+◌, ◌/◌, ◌^◌, bit_and, Bool, true, false, not, ◌&&◌, ◌||◌, Option, none, some, List, [], ◌∷◌,
  ◌==◌, if◌then◌else◌,
}

pub data OperandMode : Type 0 where
  direct xr1 xr2 absent : OperandMode

-- The machine's operations. L, A and S are `load`, `add` and `subtract`; SRC is `shift_right`.
pub data Mnemonic : Type 0 where
  bc jc svc xfer lpmr : Mnemonic
  zaz az sz mvx ed itc mvc clc alc slc : Mnemonic
  st load add subtract tbn tbf sbn sbf mvi cli shift_right sli : Mnemonic
  la : Mnemonic

-- A `switch` over numbers; `none` is its default.
unfoldable pub switch {ℓ} : {A : Type ℓ} → ℕ → List (ℕ × A) → Option A
switch n [] = none
switch n ((k, a) ∷ cases) = if n == k then some a else switch n cases

-- `static_cast<OperandMode>` of two bits.
unfoldable pub to_mode : ℕ → OperandMode
to_mode n = if n == 0 then direct else if n == 1 then xr1 else if n == 2 then xr2 else absent

unfoldable pub mode1 : ℕ → OperandMode
unfolding to_mode
mode1 opcode = to_mode (bit_and (opcode / 2 ^ 6) 3)

unfoldable pub mode2 : ℕ → OperandMode
unfolding to_mode
mode2 opcode = to_mode (bit_and (opcode / 2 ^ 4) 3)

unfoldable pub is_absent : OperandMode → Bool
is_absent absent = true
is_absent _ = false

abbrev pub svc_opcode : ℕ
svc_opcode = 0xf4

abbrev pub svc_opcode_alt : ℕ
svc_opcode_alt = 0xfc

abbrev pub jump_backward_opcode : ℕ
jump_backward_opcode = 0xf1

unfoldable pub is_svc : ℕ → Bool
is_svc opcode = opcode == svc_opcode || opcode == svc_opcode_alt

unfoldable pub mode_width : OperandMode → ℕ
mode_width direct = 2
mode_width _ = 1

unfoldable pub operand_width : OperandMode → ℕ
unfolding is_absent mode_width
operand_width m = if is_absent m then 0 else mode_width m

-- Both absent is nibble F: a control byte or an ARR displacement.
unfoldable pub operand_widths : ℕ → ℕ × ℕ
unfolding mode1 mode2 is_absent operand_width
operand_widths opcode =
    if is_absent (mode1 opcode) && is_absent (mode2 opcode)
    then (0, 1)
    else (operand_width (mode1 opcode), operand_width (mode2 opcode))

abbrev inline_cases : List (ℕ × ℕ)
inline_cases =
    (0x00, 2)
    ∷ (0x01, 2)
    ∷ (0x03, 2)
    ∷ (0x12, 2)
    ∷ (0x19, 2)
    ∷ (0x1b, 2)
    ∷ (0x22, 2)
    ∷ (0x0e, 3)
    ∷ (0x0f, 3)
    ∷ (0x10, 3)
    ∷ (0x14, 3)
    ∷ (0x1a, 3)
    ∷ (0x50, 3)
    ∷ (0x51, 3)
    ∷ (0x04, 1)
    ∷ (0x08, 1)
    ∷ (0x0b, 1)
    ∷ (0x0c, 1)
    ∷ (0x0d, 1)
    ∷ (0x13, 1)
    ∷ (0x17, 1)
    ∷ (0x1d, 1)
    ∷ (0x1e, 1)
    ∷ (0x21, 1)
    ∷ (0x23, 1)
    ∷ (0x24, 1)
    ∷ (0x2b, 1)
    ∷ (0x4c, 1)
    ∷ (0x52, 1)
    ∷ []

unfoldable pub inline_parameters : ℕ → ℕ
unfolding switch
inline_parameters r = elim (switch r inline_cases) [ none ↦ 0 | some n ↦ n ]

-- `none` is the R-byte -1, given for every operation but SVC.
unfoldable pub insn_length : ℕ → Option ℕ → ℕ
insn_length opcode none = let (w1, w2) = operand_widths opcode in 2 + w1 + w2
insn_length opcode (some r) =
    let (w1, w2) = operand_widths opcode in
    if is_svc opcode then 3 + inline_parameters r else 2 + w1 + w2

abbrev pub branch_cases : List (ℕ × Mnemonic)
branch_cases =
    (0x0, bc) ∷ (0x1, jc) ∷ (0x2, jc) ∷ (0x4, svc) ∷ (0x5, xfer) ∷ (0x6, lpmr) ∷ (0xc, svc) ∷ []

abbrev pub two_address_cases : List (ℕ × Mnemonic)
two_address_cases =
    (0x4, zaz)
    ∷ (0x6, az)
    ∷ (0x7, sz)
    ∷ (0x8, mvx)
    ∷ (0xa, ed)
    ∷ (0xb, itc)
    ∷ (0xc, mvc)
    ∷ (0xd, clc)
    ∷ (0xe, alc)
    ∷ (0xf, slc)
    ∷ []

abbrev pub one_address_cases : List (ℕ × Mnemonic)
one_address_cases =
    (0x4, st)
    ∷ (0x5, load)
    ∷ (0x6, add)
    ∷ (0x7, subtract)
    ∷ (0x8, tbn)
    ∷ (0x9, tbf)
    ∷ (0xa, sbn)
    ∷ (0xb, sbf)
    ∷ (0xc, mvi)
    ∷ (0xd, cli)
    ∷ (0xe, shift_right)
    ∷ (0xf, sli)
    ∷ []

abbrev pub second_address_cases : List (ℕ × Mnemonic)
second_address_cases = (0x0, bc) ∷ (0x2, la) ∷ []

-- `none` is an unassigned encoding.
unfoldable pub mnemonic : ℕ → Option Mnemonic
unfolding mode1 mode2 is_absent switch
mnemonic opcode =
    let high = bit_and (opcode / 2 ^ 4) 0xf in
    let low = bit_and opcode 0xf in
    if high == 0xf
    then switch low branch_cases
    else if not (is_absent (mode1 opcode)) && not (is_absent (mode2 opcode))
    then switch low two_address_cases
    else if not (is_absent (mode1 opcode))
    then switch low one_address_cases
    else switch low second_address_cases
