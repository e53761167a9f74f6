-- ===== src/Processor/Binary/Results.antt =====
-- ALC and SLC are addition and subtraction of unsigned numbers of any length.
use sim.Base.{ℕ, ◌+◌, ◌%◌, bit_and, bit_or, ltb, leb, ◌==◌, if◌then◌else◌}
use sim.Processor.Core.{Processor}

-- The status byte of an addition: the conditions and binary overflow replaced.
abbrev pub sum_status : ℕ → (a b limit : ℕ) → ℕ
sum_status psr a b limit =
    let carried = leb limit (a + b) in
    let condition = if (a + b) % limit == 0 then 1 else if carried then 4 else 2 in
    let p = bit_or (bit_and psr 0xd8) condition in if carried then bit_or p 0x20 else p

-- The status byte of a subtraction compares the operands, and keeps binary overflow.
abbrev pub difference_status : ℕ → (a b : ℕ) → ℕ
difference_status psr a b =
    bit_or (bit_and psr 0xf8) (if a == b then 1 else if ltb a b then 2 else 4)
