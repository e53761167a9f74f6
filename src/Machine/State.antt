-- ===== src/Machine/State.antt =====
-- src/Machine/MachineState.{h,cpp}: main storage, the fault latch and the address translation
-- registers. Storage is a function of which the first `size` places exist. A C++ `int` that the
-- code may find negative is a ℤ; addresses that are built by masks and shifts are ℕ, and Ints has the
-- accesses at an address that may be negative. The write
-- observers and the check history only report to the monitor and are left out.
pub mod Access
pub mod Ints
pub mod Stored
pub mod Translate
pub mod Extents
pub mod Frames
use sim.Base.{
  ℕ, zero, suc, ◌+◌, ◌-◌, ◌*◌, ◌/◌, ◌%◌, ◌^◌, ◌≤◌, ◌<◌, bit_and, bit_or, Bool, true, false, not,
  ◌||◌, Option, none, some, List, [], ◌∷◌, ltb, leb, ◌==◌, if◌then◌else◌, length,
}
use sim.Base.Int.{ℤ, pos, negsuc}
use sim.Machine.Registers.{Registers, reset}

pub record Machine : Type 0 where
  pub msp : Registers
  pub atr : ℕ → ℕ
  pub storage : ℕ → ℕ
  pub size : ℕ
  pub installed : ℕ
  pub faulted : Bool
  pub fault_addr : ℤ
  pub fault_len : ℕ

abbrev pub page_bytes : ℕ
page_bytes = 2048

abbrev pub page_shift : ℕ
page_shift = 11

abbrev pub atr_task_group0 : ℕ
atr_task_group0 = 64

abbrev pub atr_task_group1 : ℕ
atr_task_group1 = 0

abbrev pub atr_invalid_mask : ℕ
atr_invalid_mask = 0xe000

abbrev pub atr_page_frame_mask : ℕ
atr_page_frame_mask = 0x1fff

abbrev pub storage_limit : ℕ
storage_limit = 16 * 1024 * 1024

-- The constructor's two corrections of its arguments.
unfoldable pub main_bytes : ℤ → ℕ
main_bytes (pos n) = if n == 0 || ltb storage_limit n then 1024 * 1024 else n
main_bytes (negsuc n) = 1024 * 1024

unfoldable pub backing_bytes : ℕ → ℤ → ℕ
backing_bytes main (pos n) = if ltb n main || ltb storage_limit n then main else n
backing_bytes main (negsuc n) = main

unfoldable pub initial : Registers → ℤ → ℤ → Machine
unfolding main_bytes backing_bytes reset
initial r main_storage backing =
    let main = main_bytes main_storage in
    record {
      msp = reset r;
      atr = λ _. 0;
      storage = λ _. 0;
      size = backing_bytes main backing;
      installed = main;
      faulted = false;
      fault_addr = pos 0;
      fault_len = 0;
    }

unfoldable pub in_range : Machine → ℤ → ℕ → Bool
in_range m (pos addr) len = leb (addr + len) m.size
in_range m (negsuc addr) len = false

unfoldable pub fault : Machine → ℤ → ℕ → Machine
fault m addr len = record m { faulted = true; fault_addr = addr; fault_len = len }

unfoldable pub clear_fault : Machine → Machine
clear_fault m = record m { faulted = false }

-- One byte of storage replaced.
abbrev pub poke : (ℕ → ℕ) → ℕ → ℕ → ℕ → ℕ
poke f a v b = if a == b then v else f b

-- `memcpy` into storage at `a`.
unfoldable pub copy_in : (ℕ → ℕ) → ℕ → List ℕ → ℕ → ℕ
copy_in f a [] = f
copy_in f a (v ∷ vs) = copy_in (poke f a v) (a + 1) vs

-- `n` bytes of storage from `a`.
unfoldable pub copy_out : (ℕ → ℕ) → ℕ → ℕ → List ℕ
copy_out f a zero = []
copy_out f a (suc n) = f a ∷ copy_out f (a + 1) n

unfoldable pub write : Machine → ℕ → List ℕ → Machine
unfolding in_range fault
write m addr src =
    if in_range m (pos addr) (length src)
    then record m { storage = copy_in m.storage addr src }
    else fault m (pos addr) (length src)

-- `none` leaves the caller's buffer as it was.
unfoldable pub read : Machine → ℕ → ℕ → Option (List ℕ) × Machine
unfolding in_range fault
read m addr len =
    if in_range m (pos addr) len
    then (some (copy_out m.storage addr len), m)
    else (none, fault m (pos addr) len)

unfoldable pub read_byte : Machine → ℕ → ℕ × Machine
unfolding in_range fault
read_byte m addr =
    if not (in_range m (pos addr) 1) then (0, fault m (pos addr) 1) else (m.storage addr, m)

unfoldable pub write_byte : Machine → ℕ → ℕ → Machine
unfolding in_range fault
write_byte m addr v =
    if not (in_range m (pos addr) 1) then fault m (pos addr) 1 else write m addr (v ∷ [])

unfoldable pub read_half : Machine → ℕ → ℕ × Machine
unfolding in_range fault
read_half m addr =
    if not (in_range m (pos addr) 2)
    then (0, fault m (pos addr) 2)
    else (bit_or (m.storage addr * 2 ^ 8) (m.storage (addr + 1)), m)

unfoldable pub write_half : Machine → ℕ → ℕ → Machine
unfolding in_range fault
write_half m addr v =
    if not (in_range m (pos addr) 2)
    then fault m (pos addr) 2
    else write m addr (v / 2 ^ 8 % 2 ^ 8 ∷ v % 2 ^ 8 ∷ [])

unfoldable pub read_addr24 : Machine → ℕ → ℕ × Machine
unfolding in_range fault
read_addr24 m addr = if not (in_range m (pos addr) 3) then (0, fault m (pos addr) 3) else (
  bit_or (bit_or (m.storage addr * 2 ^ 16) (m.storage (addr + 1) * 2 ^ 8)) (m.storage (addr + 2)),
  m,
)

unfoldable pub write_addr24 : Machine → ℕ → ℕ → Machine
unfolding in_range fault
write_addr24 m addr v =
    if not (in_range m (pos addr) 3)
    then fault m (pos addr) 3
    else write m addr (v / 2 ^ 16 % 2 ^ 8 ∷ v / 2 ^ 8 % 2 ^ 8 ∷ v % 2 ^ 8 ∷ [])

pub record StorageProtection : Type 0 where
  pub address : ℕ
  pub for_write : Bool

pub data Resolution : Type 0 where
  real : ℕ → Resolution
  protection : StorageProtection → Resolution

unfoldable pub translate : Machine → ℕ → ℕ → Bool → Resolution
translate m logical atr_base for_write =
    let page = bit_and (logical / 2 ^ page_shift) 0x1f in
    let a = m.atr (atr_base + page) in
    if not (bit_and a atr_invalid_mask == 0)
    then protection (record { address = logical; for_write = for_write })
    else real (bit_or (bit_and a atr_page_frame_mask * 2 ^ 11) (bit_and logical 0x7ff))

unfoldable pub resolve : Machine → ℕ → ℕ → ℕ → Bool → Resolution
resolve m logical pact atr_base for_write =
    if bit_and pact 0x80 == 0
    then real (bit_or (bit_and pact 0x7f * 2 ^ 16) logical)
    else translate m logical atr_base for_write

-- `none` is the return value false, which also sets the address to 0.
unfoldable pub resolve_guest24 : Machine → ℕ → Bool → Option ℕ
resolve_guest24 m field for_write =
    if bit_and field 0x800000 == 0
    then some (bit_and field 0x7fffff)
    else elim (translate m (field % 2 ^ 16) atr_task_group0 for_write) [
      | real addr ↦ some addr
      | protection p ↦ none
    ]

-- Every byte is one, the registers of the translation file are 16 bits wide.
pub record IsSound (m : Machine) : Type 0 where
  pub bytes : (a : ℕ) → m.storage a < 0x100
  pub atrs : (k : ℕ) → m.atr k < 0x10000
