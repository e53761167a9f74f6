-- ===== src/Processor/Zoned.antt =====
-- ZAZ, AZ, SZ and ED of src/Processors/MainStorageProcessor.cpp: zoned decimal fields. The digit is
-- the low half of a byte, the sign the high half of the rightmost. The source's `long long` is
-- taken as a ℤ without a bound: the two agree on every run in which it does not overflow, which is
-- undefined behaviour and can only happen beyond 18 digits.
pub mod Digit
use sim.Base.{
  ℕ, zero, suc, ◌+◌, ◌-◌, ◌*◌, ◌/◌, ◌%◌, ◌^◌, bit_and, bit_or, Bool, true, false, not, ◌&&◌, ◌==◌,
  if◌then◌else◌,
}
use sim.Base.Int.{ℤ, pos, negsuc, nat_abs, neg, ◌+ℤ◌, ◌-ℤ◌}
use sim.Machine.Registers.{without}
use sim.Processor.Core.{
  Processor, msp_of, left, read_operand, write_operand, unless_aborted, load_psr_of, psr_high,
  psr_low, psr_equal, psr_decimal_overflow,
}
use sim.Processor.Characters.{count, set_arr}
use sim.Processor.Binary.{conditions}

abbrev pub zone_plus : ℕ
zone_plus = 0xf0

abbrev pub zone_minus : ℕ
zone_minus = 0xd0

-- The digits of the `n` rightmost bytes, from the left, after those whose value is `v`.
unfoldable pub read_digits : Bool → ℕ → ℕ → Processor → ℕ × Processor
read_digits first zero v p = (v, p)
read_digits first (suc i) v p =
    let (b, p') = read_operand first (left i) p in read_digits first i (v * 10 + bit_and b 0x0f) p'

unfoldable pub read_zoned : Bool → ℕ → Processor → ℤ × Processor
unfolding read_digits
read_zoned first len p =
    let (v, p1) = read_digits first len 0 p in
    let (b, p2) = read_operand first (left 0) p1 in
    (if bit_and b 0xf0 == zone_minus then neg (pos v) else pos v, p2)

unfoldable pub is_negative : ℤ → Bool
is_negative (pos n) = false
is_negative (negsuc n) = true

-- From the `i`th byte from the right to the left; the digits that are left over.
unfoldable pub write_digits : ℕ → ℕ → Bool → ℕ → Processor → ℕ × Processor
write_digits zero i negative v p = (v, p)
write_digits (suc n) i negative v p =
    let zone = if i == 0 then (if negative then zone_minus else zone_plus) else 0xf0 in
    write_digits n (i + 1) negative (v / 10) (write_operand true (left i) (bit_or zone (v % 10)) p)

-- `writeZoned`: true is decimal overflow.
unfoldable pub write_zoned : ℕ → ℤ → Processor → Bool × Processor
unfolding write_digits is_negative
write_zoned len value p =
    let (rest, p') = write_digits len 0 (is_negative value) (nat_abs value) p in
    (not (rest == 0), p')

-- The condition of a result's sign.
unfoldable pub sign_condition : ℤ → ℕ
sign_condition (pos zero) = psr_equal
sign_condition (pos (suc n)) = psr_high
sign_condition (negsuc n) = psr_low

unfoldable pub set_decimal_result : ℤ → Bool → Processor → Processor
unfolding sign_condition load_psr_of conditions
set_decimal_result result overflow p =
    let psr = without (msp_of p).psr (bit_or conditions psr_decimal_overflow) in
    let with_sign = bit_or psr (sign_condition result) in
    load_psr_of p (if overflow then bit_or with_sign psr_decimal_overflow else with_sign)

-- The lengths of the operands.
unfoldable pub decimal_lengths : ℕ → ℕ × ℕ
decimal_lengths q = let l2 = bit_and q 0x0f + 1 in (bit_and (q / 2 ^ 4) 0x0f + l2, l2)

-- The `i`th digit from the right; beyond the source's `len` bytes, `s`, it is 0.
unfoldable pub source_digit : ℕ → ℕ → Processor → ℕ × Processor
source_digit i zero p = (0, p)
source_digit i (suc s) p = let (b, p') = read_operand false (left i) p in (bit_and b 0x0f, p')

-- The loop of `zeroAndAddZoned` at its `i`th byte, with `s` bytes left of the source.
unfoldable pub zero_and_add_loop : ℕ → ℕ → ℕ → Bool → Bool → Processor → Bool × Processor
unfolding source_digit
zero_and_add_loop zero s i negative non_zero p = (non_zero, p)
zero_and_add_loop (suc n) s i negative non_zero p =
    let (digit, p') = source_digit i s p in
    let zone = if i == 0 && negative then zone_minus else zone_plus in
    zero_and_add_loop n (s - 1) (i + 1) negative (if non_zero then true else not (digit == 0))
      (write_operand true (left i) (bit_or zone digit) p')

unfoldable pub zero_and_add_zoned : ℕ → Processor → Processor
unfolding zero_and_add_loop set_decimal_result
zero_and_add_zoned q p =
    let (dlen, slen) = decimal_lengths q in
    let (sign, p1) = read_operand false (left 0) p in
    let negative = bit_and sign 0xf0 == zone_minus in
    let (non_zero, p2) = zero_and_add_loop dlen slen 0 negative false p1 in
    unless_aborted p2 (λ r.
      set_decimal_result (if not non_zero then pos 0 else if negative then negsuc 0 else pos 1)
        false (set_arr r.op1_logical r))

unfoldable pub add_zoned : ℕ → Bool → Processor → Processor
unfolding read_zoned write_zoned set_decimal_result
add_zoned q subtract p =
    let (dlen, slen) = decimal_lengths q in
    let (a, p1) = read_zoned true dlen p in
    let (b, p2) = read_zoned false slen p1 in
    let r = if subtract then a -ℤ b else a +ℤ b in
    let (overflow, p3) = write_zoned dlen r p2 in
    unless_aborted p3 (λ s. set_decimal_result r overflow (set_arr s.op1_logical s))

-- The loop of `edit`: how many characters were taken from operand 2.
unfoldable pub edit_loop : ℕ → ℕ → ℕ → Processor → ℕ × Processor
edit_loop zero i taken p = (taken, p)
edit_loop (suc n) i taken p =
    let (pattern_byte, p1) = read_operand true (left i) p in
    let (v, p2) = read_operand false (left taken) p1 in
    let replaced =
      edit_loop n (i + 1) (taken + 1)
        (write_operand true (left i) (bit_or 0xf0 (bit_and v 0x0f)) p2) in
    let kept = edit_loop n (i + 1) taken p1 in if not (pattern_byte == 0x20) then kept else replaced

unfoldable pub edit : ℕ → Processor → Processor
unfolding edit_loop read_zoned sign_condition load_psr_of conditions
edit q p =
    let (taken, p1) = edit_loop (count q) 0 0 p in
    unless_aborted p1 (λ r.
      let psr = without (msp_of r).psr conditions in
      let (v, r') = read_zoned false taken r in
      if taken == 0
      then load_psr_of r psr
      else unless_aborted r' (λ s. load_psr_of s (bit_or psr (sign_condition v))))
