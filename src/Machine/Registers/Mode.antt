-- ===== src/Machine/Registers/Mode.antt =====
-- The program mode register is a projection: four of its bits are bit 0 of the PACT registers.
use sim.Base.{
  ℕ, ◌<◌, ◌≡◌, refl, bit_and, bit_or, Bool, true, false, ◌&&◌, arith, ◌==◌, if◌then◌else◌,
}
use sim.Base.Table.{all_below, all_below_sound, eq_by_table}
use sim.Machine.Registers.{
  Registers, IsWide, has, without, or_if, set_bit, pmr, set_pmr, set_translated_addressing,
}

bool_eq : Bool → Bool → Bool
bool_eq true b = b
bool_eq false true = false
bool_eq false false = true

bool_eq_sound : (a b : Bool) → bool_eq a b ≡ true → a ≡ b
unfolding bool_eq
bool_eq_sound true b h = ground arith
bool_eq_sound false b h = ground arith

-- `set_bit` sets bit 0 as asked and keeps the others.
set_bit_table :
    (on : Bool)
    → all_below 256
        (λ v. bool_eq (has (set_bit v on) 0x80) on && bit_and (set_bit v on) 0x7f == bit_and v 0x7f)
      ≡ true
unfolding all_below set_bit has bool_eq
set_bit_table true = refl
set_bit_table false = refl

pub has-set_bit : (v : ℕ) (on : Bool) → v < 256 → has (set_bit v on) 0x80 ≡ on
has-set_bit v on h =
    bool_eq_sound _ _ (ground (arith, all_below_sound 256 _ v (set_bit_table on) h))

pub low-set_bit : (v : ℕ) (on : Bool) → v < 256 → bit_and (set_bit v on) 0x7f ≡ bit_and v 0x7f
low-set_bit v on h = ground (arith, all_below_sound 256 _ v (set_bit_table on) h)

-- What `pmr` makes of the bits that `set_pmr` distributes.
collect : ℕ → ℕ
collect v = or_if (has v 0x02) 0x02 (
    or_if (has v 0x04) 0x04
      (or_if (has v 0x08) 0x08 (or_if (has v 0x10) 0x10 (bit_and (bit_and v 0x81) 0x81))))

collect_table : all_below 256 (λ v. collect v == bit_and v 0x9f) ≡ true
unfolding all_below collect has or_if
collect_table = refl

-- Writing the mode register and reading it back gives the six bits that it has (bits 0, 3, 4, 5, 6
-- and 7); of the four PACT registers that it writes through only bit 0 changes.
pub pmr-set_pmr :
    (r : Registers) (v : ℕ)
    → IsWide r
    → v < 256
    → (pmr (set_pmr r v) ≡ bit_and v 0x9f)
      × (bit_and (set_pmr r v).pact_dir 0x7f ≡ bit_and r.pact_dir 0x7f)
      × (bit_and (set_pmr r v).pact_xr1 0x7f ≡ bit_and r.pact_xr1 0x7f)
      × (bit_and (set_pmr r v).pact_xr2 0x7f ≡ bit_and r.pact_xr2 0x7f)
      × (bit_and (set_pmr r v).pact_iar 0x7f ≡ bit_and r.pact_iar 0x7f)
unfolding pmr set_pmr collect
pmr-set_pmr r v w h = (
  rw
      (
        has-set_bit _ _ w.pact_dir,
        has-set_bit _ _ w.pact_xr1,
        has-set_bit _ _ w.pact_xr2,
        has-set_bit _ _ w.pact_iar,
      )
      (eq_by_table 256 collect (λ x. bit_and x 0x9f) v collect_table h),
  low-set_bit _ _ w.pact_dir,
  low-set_bit _ _ w.pact_xr1,
  low-set_bit _ _ w.pact_xr2,
  low-set_bit _ _ w.pact_iar,
)

cmr_table :
    (on : Bool)
    → all_below 256 (λ v. bool_eq (has (if on then bit_or v 0x01 else without v 0x01) 0x01) on)
      ≡ true
unfolding all_below has bool_eq
cmr_table true = refl
cmr_table false = refl

-- The translate bit of PCSP and bit 7 of the control mode register are one bit: after it is set or
-- cleared both read as asked.
set_translated_addressing_both :
    (r : Registers) (on : Bool)
    → IsWide r
    → (has (set_translated_addressing r on).cmr 0x01 ≡ on)
      × (has (set_translated_addressing r on).pact_csp 0x80 ≡ on)
unfolding set_translated_addressing
set_translated_addressing_both r on w = (
  bool_eq_sound _ _ (all_below_sound 256 _ r.cmr (cmr_table on) w.cmr),
  has-set_bit _ on w.pact_csp,
)
