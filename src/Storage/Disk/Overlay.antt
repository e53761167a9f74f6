-- ===== src/Storage/Disk/Overlay.antt =====
-- Reading what was written, in src/Storage/DiskBackend.cpp.
use sim.Base.{
  Option, ◌&&◌, ℕ, ◌<◌, ◌≡◌, Bool, some, List, [], ◌∷◌, leb, ◌==◌, if◌then◌else◌, refl, ap, arith,
  if-property, ◌⊎◌, inl, inr,
}
use sim.Base.Int.{◌==ℤ◌, ℤ, pos, negsuc}
use sim.Storage.Disk.{
  VolumeMode, read_write, read_only, overlay, DiskBackend, find_dirty, set_dirty, read_sector,
  set_image, write_inside, write_sector,
}

find_dirty-set_dirty :
    (sector other : ℕ) (bytes : List ℕ) (dirty : List (ℕ × List ℕ))
    → find_dirty other (set_dirty sector bytes dirty)
      ≡ (if sector == other then some bytes else find_dirty other dirty)
unfolding find_dirty set_dirty
find_dirty-set_dirty sector other bytes [] = ground arith
find_dirty-set_dirty sector other bytes ((s, old) ∷ rest) =
    ground (arith, find_dirty-set_dirty sector other bytes rest)

-- Only writes to an overlay are held in memory.
abbrev pub IsClean : VolumeMode → List (ℕ × List ℕ) → Type 0
IsClean read_write dirty = dirty ≡ []
IsClean read_only dirty = dirty ≡ []
IsClean overlay dirty = Unit {0}

unfoldable after_write : Bool → ℕ → ℤ → List ℕ → Option (List ℕ) → Option (List ℕ)
after_write written sector other bytes before =
    if written && pos sector ==ℤ other then some bytes else before

write_inside-read_sector :
    (mode : VolumeMode) (v : DiskBackend) (sector : ℕ) (other : ℤ) (bytes : List ℕ)
    → IsClean mode v.dirty
    → sector < v.sector_count
    → read_sector (write_inside mode sector bytes v).1 other
      ≡ after_write (write_inside mode sector bytes v).0 sector other bytes (read_sector v other)
unfolding write_inside read_sector after_write set_image find_dirty
write_inside-read_sector overlay v sector (negsuc n) bytes clean h = refl
write_inside-read_sector overlay v sector (pos other) bytes clean h =
    ground (arith, find_dirty-set_dirty sector other bytes v.dirty)
write_inside-read_sector read_only v sector other bytes clean h = refl
write_inside-read_sector read_write v sector (negsuc n) bytes clean h = refl
write_inside-read_sector read_write v sector (pos other) bytes clean h =
    ground (arith, ap (find_dirty other) clean)

write_inside-image :
    (mode : VolumeMode) (v : DiskBackend) (sector : ℕ) (bytes : List ℕ)
    → (mode ≡ read_write) ⊎ ((write_inside mode sector bytes v).1.image ≡ v.image)
unfolding write_inside
write_inside-image overlay v sector bytes = inr refl
write_inside-image read_only v sector bytes = inr refl
write_inside-image read_write v sector bytes = inl refl

-- What a write leaves at every sector, and in the image.
abbrev pub Written : DiskBackend → (sector other : ℤ) → List ℕ → Bool × DiskBackend → Type 0
Written v sector other bytes (written, w) =
    (read_sector w other
      ≡ (if written && sector ==ℤ other then some bytes else read_sector v other))
    × ((v.mode ≡ read_write) ⊎ (w.image ≡ v.image))

-- A write of any sector, where only an overlay holds sectors in memory: the bytes are read back when
-- it was accepted, no other sector changes, and the image itself changes only where the volume is
-- attached to be written.
pub read_sector-write_sector :
    (v : DiskBackend) (sector other : ℤ) (bytes : List ℕ)
    → IsClean v.mode v.dirty
    → Written v sector other bytes (write_sector v sector bytes)
unfolding write_sector after_write
read_sector-write_sector v (negsuc n) other bytes clean = (refl, inr refl)
read_sector-write_sector v (pos sector) other bytes clean =
    if-property (Written v (pos sector) other bytes) (leb v.sector_count sector) _ _
      (λ outside. (refl, inr refl))
      (λ inside. (
        write_inside-read_sector v.mode v sector other bytes clean (ground arith),
        write_inside-image v.mode v sector bytes,
      ))
