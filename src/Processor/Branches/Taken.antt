-- ===== src/Processor/Branches/Taken.antt =====
-- Which way a branch goes, and the mode that LPMR loads.
use sim.Base.{
  ℕ, ◌+◌, ◌<◌, ◌≡◌, refl, ap, ◌∙◌, bit_and, Bool, true, false, not, ◌&&◌, some, arith, ◌==◌,
}
use sim.Base.Table.{all_below, all_below_sound}
use sim.Machine.Registers.{
  Registers, IsWide, has, pmr, set_pmr, set_bit, privileged, pmr_pdir, pmr_pxr1, pmr_pxr2, pmr_piar,
}
use sim.Machine.Registers.Mode.{pmr-set_pmr}
use sim.Processor.Core.{Processor, Instruction, msp_of}
use sim.Processor.Branches.{
  condition_true, go_to, or_zero, mode_loaded, replace_mode, load_program_mode_register,
}

sense_table :
    all_below 128
      (λ q. not (has q 0x80) && has (q + 0x80) 0x80 && (bit_and (q + 0x80) 0x3f == bit_and q 0x3f))
    ≡ true
unfolding all_below has
sense_table = refl

-- Bit 0 of Q only turns the sense of a test around: of the two conditions that test the same
-- indicators one holds and the other does not, and both leave the same processor.
condition_true-sense :
    (q : ℕ) (p : Processor)
    → q < 0x80
    → ((condition_true (q + 0x80) p).0 ≡ not (condition_true q p).0)
      × ((condition_true (q + 0x80) p).1 ≡ (condition_true q p).1)
unfolding condition_true
condition_true-sense q p h =
    let t = all_below_sound 128 _ q sense_table h in (ground arith, ground arith)

set_bit_table : (on : Bool) → all_below 256 (λ v. set_bit (set_bit v on) on == set_bit v on) ≡ true
unfolding all_below set_bit
set_bit_table true = refl
set_bit_table false = refl

set_bit-twice : (v : ℕ) (on : Bool) → v < 256 → set_bit (set_bit v on) on ≡ set_bit v on
set_bit-twice v on h = ground (arith, all_below_sound 256 _ v (set_bit_table on) h)

-- The PACT bits are set by `set_pmr` already.
replace_mode-set_pmr :
    (r : ℕ) (regs : Registers) → IsWide regs → replace_mode r regs ≡ set_pmr regs r
unfolding replace_mode set_pmr
replace_mode-set_pmr r regs w =
    rw
      (
        set_bit-twice regs.pact_dir (has r pmr_pdir) w.pact_dir,
        set_bit-twice regs.pact_xr1 (has r pmr_pxr1) w.pact_xr1,
        set_bit-twice regs.pact_xr2 (has r pmr_pxr2) w.pact_xr2,
        set_bit-twice regs.pact_iar (has r pmr_piar) w.pact_iar,
      )
      refl

replaces_lem :
    (insn : Instruction) (r next : ℕ) (p : Processor)
    → privileged (msp_of p) ≡ true
    → insn.q ≡ 0
    → insn.operand2 ≡ some r
    → load_program_mode_register insn next p ≡ mode_loaded next p (replace_mode r (msp_of p))
unfolding load_program_mode_register or_zero
replaces_lem insn r next p priv q o = ground arith

pmr-mode_loaded :
    (next : ℕ) (p : Processor) (regs : Registers)
    → pmr (msp_of (mode_loaded next p regs).1) ≡ pmr regs
unfolding mode_loaded go_to pmr
pmr-mode_loaded next p regs = refl

mode_loaded_lem :
    (next : ℕ) (p : Processor) (regs : Registers)
    → ((mode_loaded next p regs).0 ≡ true)
      × ((msp_of (mode_loaded next p regs).1).iar ≡ next)
      × ((mode_loaded next p regs).1.instructions ≡ p.instructions + 1)
unfolding mode_loaded go_to
mode_loaded_lem next p regs = (refl, refl, refl)

-- LPMR with a Q of 00 on a privileged processor: the program mode register reads as the byte loaded,
-- in the six bits that it has, execution goes on with the next instruction, and it counts as one.
load_program_mode_register-all :
    (insn : Instruction) (r next : ℕ) (p : Processor)
    → IsWide (msp_of p)
    → privileged (msp_of p) ≡ true
    → insn.q ≡ 0
    → insn.operand2 ≡ some r
    → r < 256
    → ((load_program_mode_register insn next p).0 ≡ true)
      × (pmr (msp_of (load_program_mode_register insn next p).1) ≡ bit_and r 0x9f)
      × ((msp_of (load_program_mode_register insn next p).1).iar ≡ next)
      × ((load_program_mode_register insn next p).1.instructions ≡ p.instructions + 1)
load_program_mode_register-all insn r next p w priv q o h =
    let loaded =
      replaces_lem insn r next p priv q o
      ∙ ap (mode_loaded next p) (replace_mode-set_pmr r (msp_of p) w) in
    let regs = set_pmr (msp_of p) r in
    let (ok, iar, counted) = mode_loaded_lem next p regs in
    rw loaded (ok, pmr-mode_loaded next p regs ∙ (pmr-set_pmr (msp_of p) r w h).0, iar, counted)
