-- ===== src/Machine/State/Extents.antt =====
-- `translatedExtents`, `guest24Extents` and the block transfers built on them: a transfer through
-- the translation registers as a list of real extents (address and count, in transfer order).
pub mod Covers
use sim.Base.{
  ℕ, zero, suc, ◌+◌, ◌-◌, ◌*◌, ◌%◌, ◌^◌, bit_and, Bool, true, false, not, Option, none, some, List,
  [], ◌∷◌, ◌++◌, ltb, ◌==◌, if◌then◌else◌, length, take, drop,
}
use sim.Base.Int.{ℤ, pos, negsuc}
use sim.Machine.State.{
  Machine, StorageProtection, Resolution, real, protection, translate, in_range, read, write,
  page_bytes, atr_task_group0,
}

abbrev pub Extents : Type 0
Extents = List (ℕ × ℕ)

pub data Extent : Type 0 where
  extents : Extents → Extent
  refused : StorageProtection → Extent
  out_of_fuel : Extent

-- The run that starts at `at` joins the last extent if it continues it.
unfoldable pub push_extent : Extents → ℕ → ℕ → Extents
push_extent [] at n = (at, n) ∷ []
push_extent ((a, k) ∷ []) at n = if a + k == at then (a, k + n) ∷ [] else (a, k) ∷ (at, n) ∷ []
push_extent ((a, k) ∷ e ∷ es) at n = (a, k) ∷ push_extent (e ∷ es) at n

-- Bytes from `at` to the end of its page, but no more than are left.
unfoldable pub run_length : ℕ → ℕ → ℕ
run_length at left =
    let in_page = page_bytes - bit_and at (page_bytes - 1) in
    if ltb in_page left then in_page else left

unfoldable pub extents_loop : ℕ → Machine → ℕ → ℕ → ℕ → Bool → Extents → Extent
unfolding run_length
extents_loop zero m base at left w es = out_of_fuel
extents_loop (suc fuel) m base at left w es = elim (ltb 0 left) [
  | false ↦ extents es
  | true ↦ elim (translate m at base w) [
    | protection p ↦ refused p
    | real r ↦
        let n = run_length at left in
        extents_loop fuel m base (bit_and (at + n) 0xffff) (left - n) w (push_extent es r n)
  ]
]

-- Each round takes at least one byte, so one round more than there are bytes is enough.
unfoldable pub translated_extents : Machine → ℕ → ℕ → ℕ → Bool → Extent
translated_extents m logical base len w = extents_loop (suc len) m base logical len w []

unfoldable pub guest24_extents : Machine → ℕ → ℤ → Bool → Option Extents
guest24_extents m field (negsuc len) w = none
guest24_extents m field (pos len) w =
    if not (bit_and field 0x800000 == 0)
    then elim (translated_extents m (field % 2 ^ 16) atr_task_group0 len w) [
      | extents es ↦ some es
      | _ ↦ none
    ]
    else let at = bit_and field 0x7fffff in
      if not (in_range m (pos at) len)
      then none
      else if not (len == 0)
      then some ((at, len) ∷ [])
      else some []

-- The reads of `readGuest24Range`: a read that faults leaves its part of the buffer as it was.
unfoldable pub read_extents : Machine → Extents → List ℕ → List ℕ × Machine
read_extents m [] dest = (dest, m)
read_extents m ((at, n) ∷ es) dest =
    let (got, m') = read m at n in
    let (rest, m'') = read_extents m' es (drop n dest) in
    (elim got [ none ↦ take n dest | some bs ↦ bs ] ++ rest, m'')

unfoldable pub read_guest24_range : Machine → ℕ → ℤ → List ℕ → Bool × List ℕ × Machine
read_guest24_range m field len dest = elim (guest24_extents m field len false) [
  | none ↦ (false, dest, m)
  | some es ↦ let (got, m') = read_extents m es dest in (not m'.faulted, got, m')
]

unfoldable pub write_extents : Machine → Extents → List ℕ → Machine
write_extents m [] src = m
write_extents m ((at, n) ∷ es) src = write_extents (write m at (take n src)) es (drop n src)

unfoldable pub write_guest24_range : Machine → ℕ → ℤ → List ℕ → Bool × Machine
write_guest24_range m field len src = elim (guest24_extents m field len true) [
  | none ↦ (false, m)
  | some es ↦ let m' = write_extents m es src in (not m'.faulted, m')
]
