-- ===== src/Machine/State/Translate.antt =====
-- Address translation in plain arithmetic: what the masks and shifts of `resolve` amount to.
use sim.Base.{
  ℕ, ◌+◌, ◌*◌, ◌/◌, ◌%◌, ◌^◌, ◌≤◌, ◌<◌, ◌≡◌, ap, ◌⊎◌, inl, inr, bit_and, Bool, arith, ltb,
  if◌then◌else◌,
}
use sim.Base.Bits.{or_fields, and_low, and_high}
use sim.Machine.State.{Machine, IsSound, real, protection, translate, resolve}

le_total : (a b : ℕ) → (a ≤ b) ⊎ (b < a)
le_total a b = grind arith

-- The page frame number 13 bits wide, at 2 KB a page; three more bits mark the page invalid.
abbrev pub frame_of : Machine → ℕ → ℕ → ℕ
frame_of m logical base = m.atr (base + logical / 2048)

pub translate_lem :
    (m : Machine) (logical base : ℕ) (w : Bool)
    → IsSound m
    → logical < 0x10000
    → translate m logical base w ≡ (
        if ltb (frame_of m logical base) 0x2000
        then real (frame_of m logical base * 2048 + logical % 2048)
        else protection (record { address = logical; for_write = w }))
unfolding translate
translate_lem m logical base w s h =
    rw (page, valid, frame, offset) (ground (arith, or_fields 11 (a % 8192) (logical % 2048)))
  where
    a : ℕ
    a = frame_of m logical base

    page : bit_and (logical / 2 ^ 11) 0x1f ≡ logical / 2048
    page = omega (arith, and_low 5 (logical / 2 ^ 11))

    valid : bit_and a 0xe000 ≡ a / 8192 * 8192
    valid = omega (arith, and_high 13 a 7, and_low 3 (a / 2 ^ 13), s.atrs (base + logical / 2048))

    frame : bit_and a 0x1fff ≡ a % 8192
    frame = and_low 13 a

    offset : bit_and logical 0x7ff ≡ logical % 2048
    offset = and_low 11 logical

untranslated :
    (m : Machine) (logical pact base : ℕ) (w : Bool)
    → logical < 0x10000
    → pact < 0x80
    → resolve m logical pact base w ≡ real (pact * 0x10000 + logical)
unfolding resolve
untranslated m logical pact base w h hp = rw (bit, prefix) (rw (or_fields 16 pact logical h))
  where
    bit : bit_and pact 0x80 ≡ 0
    bit = omega (arith, and_high 7 pact 1, and_low 1 (pact / 2 ^ 7))

    prefix : bit_and pact 0x7f ≡ pact
    prefix = omega (arith, and_low 7 pact)

translated :
    (m : Machine) (logical pact base : ℕ) (w : Bool)
    → 0x80 ≤ pact
    → pact < 0x100
    → resolve m logical pact base w ≡ translate m logical base w
unfolding resolve
translated m logical pact base w low high = rw bit
  where
    bit : bit_and pact 0x80 ≡ 0x80
    bit = omega (arith, and_high 7 pact 1, and_low 1 (pact / 2 ^ 7))

-- Resolving a logical address of 16 bits, on every path, where the translation registers hold 16
-- bits and the PACT register 8: below 0x80 the PACT prefix is the high byte of a real address; from
-- 0x80 on, the page's translation register either names a 2 KB frame, and the offset in the page is
-- kept, or is invalid (0x2000 and above) and the access is a protection violation at that address.
pub resolve_lem :
    (m : Machine) (logical pact base : ℕ) (w : Bool)
    → IsSound m
    → logical < 0x10000
    → pact < 0x100
    → resolve m logical pact base w ≡ (
        if ltb pact 0x80
        then real (pact * 0x10000 + logical)
        else if ltb (frame_of m logical base) 0x2000
        then real (frame_of m logical base * 2048 + logical % 2048)
        else protection (record { address = logical; for_write = w }))
resolve_lem m logical pact base w s h hp = elim (le_total 0x80 pact) [
  | inl high ↦
      ground (arith, translated m logical pact base w high hp, translate_lem m logical base w s h)
  | inr low ↦ ground (arith, untranslated m logical pact base w h low)
]

-- Every address that a logical address of 16 bits resolves to lies below 16 MB, where the
-- translation registers hold 16 bits and the PACT register 8.
resolve-lt :
    (m : Machine) (logical pact base : ℕ) (w : Bool) (r : ℕ)
    → IsSound m
    → logical < 0x10000
    → pact < 0x100
    → resolve m logical pact base w ≡ real r
    → r < 0x1000000
resolve-lt m logical pact base w r s h hp e =
    ground (arith, resolve_lem m logical pact base w s h hp)

-- Addresses of one page share its translation.
pub translate-same_page :
    (m : Machine) (logical base n r : ℕ) (w : Bool)
    → IsSound m
    → logical < 0x10000
    → logical % 2048 + n < 2048
    → translate m logical base w ≡ real r
    → translate m (logical + n) base w ≡ real (r + n)
translate-same_page m logical base n r w s h hn e =
    let page : (logical + n) / 2048 ≡ logical / 2048 = omega arith in
    ground (
      arith,
      ap (λ k. m.atr (base + k)) page,
      translate_lem m logical base w s h,
      translate_lem m (logical + n) base w s (omega arith),
    )
