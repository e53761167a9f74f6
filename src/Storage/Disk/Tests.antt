-- ===== src/Storage/Disk/Tests.antt =====
-- The theorems on volumes at concrete inputs.
use sim.Base.{ℕ, ◌≡◌, ◌==◌, some, List, [], ◌∷◌, ◌++◌, All, replicate, if◌then◌else◌, refl, arith}
use sim.Base.Int.{pos}
use sim.Storage.Disk.{DiskBackend, read_write, overlay, read_sector, find_dirty, be24, write_sector}
use sim.Storage.Disk.Overlay.{Written, read_sector-write_sector}
use sim.Storage.Disk.Vtoc.{VtocEntry, library, system_sector_of}
use sim.Storage.Disk.Search.{system_sector_of-finds}
use sim.Storage.Disk.Library.{read}
use sim.Storage.Disk.Members.{IsMember, read-IsMember}

abbrev volume_bytes : List ℕ
volume_bytes = 0xe5 ∷ 0xd6 ∷ 0xd3 ∷ 0xf1 ∷ replicate 9 0x40 ++ 0 ∷ 0x20 ∷ 0x10 ∷ []

-- The system labels begin one sector behind the place that the volume label names.
abbrev volume_image : ℕ → List ℕ
volume_image s =
    if s == 8190 then volume_bytes else if s == 0x2011 then 0xc6 ∷ 0xf1 ∷ [] else 0xff ∷ []

abbrev volume0 : DiskBackend
volume0 = record { mode = overlay; sector_count = 9000; image = volume_image; dirty = [] }

read_sector-write_sector_example :
    Written volume0 (pos 7) (pos 8) (1 ∷ []) (write_sector volume0 (pos 7) (1 ∷ []))
read_sector-write_sector_example = read_sector-write_sector volume0 (pos 7) (pos 8) (1 ∷ []) tt

system_sector_of-finds_example : system_sector_of (some volume0) ≡ 0x2011
unfolding read_sector find_dirty be24
system_sector_of-finds_example =
    system_sector_of-finds volume0 0x2010 1 (omega arith) (refl, refl, omega arith) (omega arith)
      (omega arith) (refl, tt) refl

-- A directory sector with a load module at the library's second sector.
abbrev member_sector : List ℕ
member_sector = 0xd6 ∷ 0xc1 ∷ replicate 7 0x40 ++ 0 ∷ 0 ∷ 2 ∷ 1 ∷ replicate 38 0

abbrev library0 : VtocEntry
library0 = record {
  name = [];
  entry_type = library;
  extent_sector = 100;
  data_sector = 0;
  allocated_sectors = 10;
  record_length = 0;
  records_used = 0;
  capacity = 0;
}

abbrev library_volume : DiskBackend
library_volume = record {
  mode = read_write;
  sector_count = 200;
  image = λ s. if s == 101 then member_sector else [];
  dirty = [];
}

read-IsMember_example : All (IsMember library0) (read library_volume library0 4096)
read-IsMember_example = read-IsMember library_volume library0 4096
