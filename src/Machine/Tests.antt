-- ===== src/Machine/Tests.antt =====
-- The theorems on registers and main storage at concrete inputs.
use sim.Base.{
  ℕ, ◌+◌, ◌*◌, ◌%◌, ◌≡◌, refl, true, false, none, some, List, [], ◌∷◌, arith, if◌then◌else◌, ◌==◌,
  ltb,
}
use sim.Base.Int.{ℤ, pos}
use sim.Machine.Registers.{Registers, IsWide}
use sim.Machine.State.{Machine, IsSound, real, protection, resolve, translate}
use sim.Machine.State.Ints.{
  write_at, read_at, write_byte_at, read_byte_at, write_half_at, read_half_at, write_addr24_at,
  read_addr24_at,
}
use sim.Machine.State.Stored.{IsAccess, every-IsAccess}
use sim.Machine.State.Translate.{frame_of, resolve_lem}
use sim.Machine.State.Extents.{translated_extents}
use sim.Machine.State.Extents.Covers.{IsTransfer, translated_extents-IsTransfer}
use sim.Machine.State.Frames.Atomic.{IsOutcome, write_page_frames-IsOutcome}

abbrev pub registers0 : Registers
registers0 = record {
  iar = 0x1000;
  arr = 0x2000;
  xr1 = 0x3000;
  xr2 = 0x4000;
  wr = 1 ∷ 2 ∷ 3 ∷ 4 ∷ 5 ∷ 6 ∷ 7 ∷ 8 ∷ [];
  psr = 0x01;
  pact_dir = 0;
  pact_xr1 = 0x80;
  pact_xr2 = 0;
  pact_iar = 0;
  pact_reg = 0;
  pact_atr = 0;
  pact_csp = 0;
  pmr_own_bits = 0;
  cmr = 0;
}

pub registers0-IsWide : IsWide registers0
registers0-IsWide = record {
  iar = omega arith;
  arr = omega arith;
  xr1 = omega arith;
  xr2 = omega arith;
  wr = (
    omega arith,
    (
      omega arith,
      (omega arith, (omega arith, (omega arith, (omega arith, (omega arith, (omega arith, tt)))))),
    ),
  );
  wr_count = refl;
  psr = omega arith;
  pact_dir = omega arith;
  pact_xr1 = omega arith;
  pact_xr2 = omega arith;
  pact_iar = omega arith;
  pact_reg = omega arith;
  pact_atr = omega arith;
  pact_csp = omega arith;
  pmr_own_bits = omega arith;
  cmr = omega arith;
}

-- 64 KB, each byte the low byte of its address; logical page 2 is invalid.
abbrev pub machine0 : Machine
machine0 = record {
  msp = registers0;
  atr = λ k. if k == 66 then 0xe000 else k % 16;
  storage = λ a. a % 256;
  size = 0x10000;
  installed = 0x10000;
  faulted = false;
  fault_addr = pos 0;
  fault_len = 0;
}

machine0-IsSound : IsSound machine0
machine0-IsSound = record { bytes = λ a. omega arith; atrs = λ k. ground arith }

abbrev block : List ℕ
block = 0xc1 ∷ 0xc2 ∷ 0xc3 ∷ []

every-IsAccess_example :
    IsAccess machine0
      (pos 0xffff)
      block
      (write_at machine0 (pos 0xffff) block)
      (λ k. read_at k (pos 0xffff) 3)
      (some block)
      none
    × IsAccess machine0
        (pos 0xffff)
        (7 ∷ [])
        (write_byte_at machine0 (pos 0xffff) 7)
        (λ k. read_byte_at k (pos 0xffff))
        7
        0
    × IsAccess machine0
        (pos 0xffff)
        (2 ∷ 1 ∷ [])
        (write_half_at machine0 (pos 0xffff) 0x201)
        (λ k. read_half_at k (pos 0xffff))
        0x201
        0
    × IsAccess machine0
        (pos 0xffff)
        (3 ∷ 2 ∷ 1 ∷ [])
        (write_addr24_at machine0 (pos 0xffff) 0x30201)
        (λ k. read_addr24_at k (pos 0xffff))
        0x30201
        0
every-IsAccess_example =
    every-IsAccess machine0 (pos 0xffff) 7 0x201 0x30201 block (omega arith) (omega arith)

resolve_lem_example : resolve machine0 0x1234 0x80 64 true ≡ (
    if ltb 0x80 0x80
    then real (0x80 * 0x10000 + 0x1234)
    else if ltb (frame_of machine0 0x1234 64) 0x2000
    then real (frame_of machine0 0x1234 64 * 2048 + 0x1234 % 2048)
    else protection (record { address = 0x1234; for_write = true }))
resolve_lem_example =
    resolve_lem machine0 0x1234 0x80 64 true machine0-IsSound (omega arith) (omega arith)

resolves : resolve machine0 0x0834 0x80 64 false ≡ real 0x0834
unfolding resolve translate
resolves = refl

translated_extents-IsTransfer_example :
    IsTransfer machine0 64 false 0x07f0 0x20 (translated_extents machine0 0x07f0 64 0x20 false)
translated_extents-IsTransfer_example =
    translated_extents-IsTransfer machine0 0x07f0 64 0x20 false machine0-IsSound (omega arith)

abbrev frames0 : List ℤ
frames0 = pos 0x1000 ∷ pos 0x2000 ∷ []

write_page_frames-IsOutcome_example : IsOutcome machine0 frames0 (pos 0x7ff) (some block) (pos 3)
write_page_frames-IsOutcome_example =
    write_page_frames-IsOutcome machine0 frames0 (pos 0x7ff) (pos 3) (some block) (omega arith)
