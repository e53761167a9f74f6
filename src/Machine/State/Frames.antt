-- ===== src/Machine/State/Frames.antt =====
-- `writePageFrames`: a copy into a range whose 2 KB pages lie in frames of their own.
pub mod Atomic
use sim.Base.{
  ℕ, zero, suc, ◌+◌, ◌-◌, ◌*◌, ◌/◌, ◌^◌, bit_and, Bool, true, false, not, ◌||◌, Option, none, some,
  List, [], ◌∷◌, ltb, ◌==◌, if◌then◌else◌, length, get_or, take, drop,
}
use sim.Base.Int.{ℤ, pos, negsuc, ◌+ℤ◌}
use sim.Machine.State.{Machine, in_range, fault, write, page_bytes, page_shift}
use sim.Machine.State.Ints.{write_at}
use sim.Machine.State.Extents.{run_length}

-- The real address of displacement `at`: its frame, and the offset in the page.
unfoldable pub place : List ℤ → ℕ → ℤ
unfolding ◌+ℤ◌
place frames at = get_or frames (at / 2 ^ page_shift) (pos 0) +ℤ pos (bit_and at (page_bytes - 1))

-- Frame 0 is an absent page.
unfoldable pub absent : ℤ → Bool
absent (pos n) = n == 0
absent (negsuc n) = false

pub data Validation : Type 0 where
  valid invalid out_of_fuel : Validation

unfoldable pub validate : ℕ → Machine → List ℤ → ℕ → ℕ → Validation
validate zero m frames at left = out_of_fuel
validate (suc fuel) m frames at left = elim (ltb 0 left) [
  | false ↦ valid
  | true ↦
      let chunk = run_length at left in
      let later = validate fuel m frames (at + chunk) (left - chunk) in
      if absent (get_or frames (at / 2 ^ page_shift) (pos 0))
        || not (in_range m (place frames at) chunk)
      then invalid
      else later
]

unfoldable pub copy_frames : ℕ → Machine → List ℤ → ℕ → List ℕ → Option Machine
copy_frames zero m frames at src = none
copy_frames (suc fuel) m frames at src = elim (ltb 0 (length src)) [
  | false ↦ some m
  | true ↦
      let chunk = run_length at (length src) in
      copy_frames fuel (write_at m (place frames at) (take chunk src)) frames (at + chunk)
        (drop chunk src)
]

-- After the guards. Each round of either loop takes at least one byte.
unfoldable pub write_checked : Machine → List ℤ → ℕ → List ℕ → Option (Bool × Machine)
write_checked m frames at src = elim (validate (suc (length src)) m frames at (length src)) [
  | out_of_fuel ↦ none
  | invalid ↦ some (false, m)
  | valid ↦ elim (copy_frames (suc (length src)) m frames at src) [
    | none ↦ none
    | some m' ↦ some (true, m')
  ]
]

-- `none` would be a loop that does not end. The source is a pointer, null as `none`, to at least
-- `len` bytes.
unfoldable pub write_page_frames :
    Machine → List ℤ → ℤ → Option (List ℕ) → ℤ → Option (Bool × Machine)
write_page_frames m frames (negsuc d) source len = some (false, m)
write_page_frames m frames (pos d) source (negsuc n) = some (false, m)
write_page_frames m frames (pos d) none (pos n) = some (n == 0, m)
write_page_frames m frames (pos d) (some src) (pos n) =
    if n == 0
    then some (true, m)
    else if ltb (length frames * page_bytes) (d + n)
    then some (false, m)
    else write_checked m frames d (take n src)
