-- ===== src/Storage/Disk.antt =====
-- `DiskBackend` of src/Storage/DiskBackend.{h,cpp}: the sectors of a volume's image, with the
-- overlay that holds writes in memory, and the fields of src/Storage/ByteOrder.h. The host reads and
-- writes every sector of the image; the lock beside it is the host's. `none` is a refusal.
pub mod Overlay
pub mod Vtoc
pub mod Search
pub mod Library
pub mod Members
mod Tests
use sim.Base.{
  ◌/◌, ℕ, zero, suc, ◌+◌, ◌*◌, ◌^◌, bit_or, Bool, true, false, not, ◌||◌, Option, none, some, List,
  [], ◌∷◌, ltb, leb, ◌==◌, if◌then◌else◌, length, get_or,
}
use sim.Base.Int.{ℤ, pos, negsuc}

pub data VolumeMode : Type 0 where
  read_write : VolumeMode
  read_only : VolumeMode
  overlay : VolumeMode

abbrev pub sector_bytes : ℕ
sector_bytes = 256

abbrev pub sectors_per_block : ℕ
sectors_per_block = 10

pub record DiskBackend : Type 0 where
  pub mode : VolumeMode
  pub sector_count : ℕ
  pub image : ℕ → List ℕ
  pub dirty : List (ℕ × List ℕ)

unfoldable pub overlay_sectors : DiskBackend → ℕ
overlay_sectors v = length v.dirty

unfoldable pub block_count : DiskBackend → ℕ
block_count v = v.sector_count / sectors_per_block

unfoldable pub find_dirty : ℕ → List (ℕ × List ℕ) → Option (List ℕ)
find_dirty sector [] = none
find_dirty sector ((s, bytes) ∷ rest) =
    let later = find_dirty sector rest in if s == sector then some bytes else later

-- The overlay in the order of its sectors, with this one set.
unfoldable pub set_dirty : ℕ → List ℕ → List (ℕ × List ℕ) → List (ℕ × List ℕ)
set_dirty sector bytes [] = (sector, bytes) ∷ []
set_dirty sector bytes ((s, old) ∷ rest) =
    let later = set_dirty sector bytes rest in
    if s == sector
    then (sector, bytes) ∷ rest
    else if ltb sector s
    then (sector, bytes) ∷ (s, old) ∷ rest
    else (s, old) ∷ later

abbrev pub or_image : List ℕ → Option (List ℕ) → List ℕ
or_image bytes none = bytes
or_image bytes (some held) = held

unfoldable pub read_sector : DiskBackend → ℤ → Option (List ℕ)
read_sector v (negsuc n) = none
read_sector v (pos sector) =
    if leb v.sector_count sector
    then none
    else some (or_image (v.image sector) (find_dirty sector v.dirty))

unfoldable pub set_image : (ℕ → List ℕ) → ℕ → List ℕ → ℕ → List ℕ
set_image image sector bytes s = if s == sector then bytes else image s

unfoldable pub write_inside : VolumeMode → ℕ → List ℕ → DiskBackend → Bool × DiskBackend
write_inside overlay sector bytes v = (true, record v { dirty = set_dirty sector bytes v.dirty })
write_inside read_only sector bytes v = (false, v)
write_inside read_write sector bytes v = (true, record v { image = set_image v.image sector bytes })

unfoldable pub write_sector : DiskBackend → ℤ → List ℕ → Bool × DiskBackend
write_sector v (negsuc n) bytes = (false, v)
write_sector v (pos sector) bytes =
    if leb v.sector_count sector then (false, v) else write_inside v.mode sector bytes v

unfoldable pub be16 : List ℕ → (at : ℕ) → ℕ
be16 p at = bit_or (get_or p at 0 * 2 ^ 8) (get_or p (at + 1) 0)

unfoldable pub be24 : List ℕ → (at : ℕ) → ℕ
be24 p at =
    bit_or (get_or p at 0 * 2 ^ 16) (bit_or (get_or p (at + 1) 0 * 2 ^ 8) (get_or p (at + 2) 0))
