-- ===== src/Machine/Registers.antt =====
-- src/Machine/MspRegisters.{h,cpp}: the register file of the main storage processor. A `uint8_t` or
-- `uint16_t` is the number it holds; bit 0 in the manuals' numbering is the mask 0x80 of a byte.
pub mod Status
pub mod Mode
use sim.Base.{
  ℕ, ◌-◌, ◌<◌, bit_and, bit_or, Bool, not, List, ◌==◌, if◌then◌else◌, replicate, All, length, ◌≡◌,
}

-- `(v & mask) != 0`.
unfoldable pub has : ℕ → ℕ → Bool
has v mask = not (bit_and v mask == 0)

-- `v & ~mask` on a byte.
abbrev pub without : ℕ → ℕ → ℕ
without v mask = bit_and v (255 - mask)

pub record Registers : Type 0 where
  pub iar : ℕ
  pub arr : ℕ
  pub xr1 : ℕ
  pub xr2 : ℕ
  pub wr : List ℕ
  pub psr : ℕ
  pub pact_dir : ℕ
  pub pact_xr1 : ℕ
  pub pact_xr2 : ℕ
  pub pact_iar : ℕ
  pub pact_reg : ℕ
  pub pact_atr : ℕ
  pub pact_csp : ℕ
  pub pmr_own_bits : ℕ
  pub cmr : ℕ

abbrev pub pact_translate : ℕ
pact_translate = 0x80

abbrev pub pmr_task_dispatch : ℕ
pmr_task_dispatch = 0x80

abbrev pub pmr_pxr1 : ℕ
pmr_pxr1 = 0x10

abbrev pub pmr_piar : ℕ
pmr_piar = 0x08

abbrev pub pmr_pxr2 : ℕ
pmr_pxr2 = 0x04

abbrev pub pmr_pdir : ℕ
pmr_pdir = 0x02

abbrev pub pmr_not_privileged : ℕ
pmr_not_privileged = 0x01

-- The byte that `loadPsr` stores.
unfoldable pub normalize : ℕ → ℕ
unfolding has
normalize v =
    if has v 0x01
    then bit_or (without v 0x06) 0x01
    else if not (has v 0x02)
    then bit_or v 0x04
    else bit_and v 0xfb

unfoldable pub load_psr : Registers → ℕ → Registers
unfolding normalize
load_psr r v = record r { psr = normalize v }

unfoldable pub load_psr_from_wmpr : Registers → ℕ → Registers
unfolding has
load_psr_from_wmpr r wmpr = record r {
  psr =
      if has wmpr 0x01
      then bit_or (without r.psr 0x06) 0x01
      else if not (has wmpr 0x04)
      then bit_or (without r.psr 0x01) 0x02
      else without r.psr 0x02;
}

-- `setBit`: bit 0 of a PACT register.
unfoldable pub set_bit : ℕ → Bool → ℕ
set_bit v on = if on then bit_or v pact_translate else without v pact_translate

-- The mask `m`, where `on`.
unfoldable pub or_if : Bool → ℕ → ℕ → ℕ
or_if on m v = if on then bit_or v m else v

unfoldable pub pmr : Registers → ℕ
pmr r = or_if (has r.pact_dir pact_translate) pmr_pdir (
    or_if (has r.pact_xr2 pact_translate) pmr_pxr2 (
      or_if (has r.pact_iar pact_translate) pmr_piar (
        or_if (has r.pact_xr1 pact_translate) pmr_pxr1
          (bit_and r.pmr_own_bits (bit_or pmr_task_dispatch pmr_not_privileged)))))

unfoldable pub set_pmr : Registers → ℕ → Registers
set_pmr r value = record r {
  pmr_own_bits = bit_and value (bit_or pmr_task_dispatch pmr_not_privileged);
  pact_xr1 = set_bit r.pact_xr1 (has value pmr_pxr1);
  pact_iar = set_bit r.pact_iar (has value pmr_piar);
  pact_xr2 = set_bit r.pact_xr2 (has value pmr_pxr2);
  pact_dir = set_bit r.pact_dir (has value pmr_pdir);
}

unfoldable pub privileged : Registers → Bool
privileged r = bit_and (pmr r) pmr_not_privileged == 0

unfoldable pub set_translated_addressing : Registers → Bool → Registers
set_translated_addressing r on = record r {
  cmr = if on then bit_or r.cmr 0x01 else without r.cmr 0x01;
  pact_csp = set_bit r.pact_csp on;
}

unfoldable pub reset : Registers → Registers
reset r = record {
  iar = 0;
  arr = 0;
  xr1 = 0;
  xr2 = 0;
  wr = replicate 8 0;
  psr = 0;
  pact_dir = 0;
  pact_xr1 = 0;
  pact_xr2 = 0;
  pact_iar = 0;
  pact_reg = 0;
  pact_atr = 0;
  pact_csp = 0;
  pmr_own_bits = 0;
  cmr = 0;
}

-- Every register holds a value of its width, and there are eight work registers.
pub record IsWide (r : Registers) : Type 0 where
  pub iar : r.iar < 0x10000
  pub arr : r.arr < 0x10000
  pub xr1 : r.xr1 < 0x10000
  pub xr2 : r.xr2 < 0x10000
  pub wr : All (λ w. w < 0x10000) r.wr
  pub wr_count : length r.wr ≡ 8
  pub psr : r.psr < 0x100
  pub pact_dir : r.pact_dir < 0x100
  pub pact_xr1 : r.pact_xr1 < 0x100
  pub pact_xr2 : r.pact_xr2 < 0x100
  pub pact_iar : r.pact_iar < 0x100
  pub pact_reg : r.pact_reg < 0x100
  pub pact_atr : r.pact_atr < 0x100
  pub pact_csp : r.pact_csp < 0x100
  pub pmr_own_bits : r.pmr_own_bits < 0x100
  pub cmr : r.cmr < 0x100
