-- ===== src/Storage/Disk/Vtoc.antt =====
-- `Vtoc` of src/Storage/Vtoc.{h,cpp}: the format-1 labels of a volume. A volume that is not attached
-- is `none`.
use sim.Base.{
  ℕ, zero, suc, ◌+◌, ◌-◌, ◌*◌, ◌/◌, Bool, not, ◌&&◌, ◌||◌, Option, none, some, List, [], ◌∷◌, ◌++◌,
  ltb, leb, ◌==◌, if◌then◌else◌, length, take, drop, get_or,
}
use sim.Base.Int.{pos}
use sim.Storage.Ebcdic.{cp500, to_ascii}
use sim.Storage.Disk.{DiskBackend, sectors_per_block, read_sector, be16, be24}

pub data VtocEntryType : Type 0 where
  unknown : VtocEntryType
  indexed_file : VtocEntryType
  sequential_file : VtocEntryType
  direct_file : VtocEntryType
  library : VtocEntryType
  folder : VtocEntryType

pub record VtocEntry : Type 0 where
  pub name : List ℕ
  pub entry_type : VtocEntryType
  pub extent_sector : ℕ
  pub data_sector : ℕ
  pub allocated_sectors : ℕ
  pub record_length : ℕ
  pub records_used : ℕ
  pub capacity : ℕ

unfoldable pub end_sector : VtocEntry → ℕ
end_sector e = e.extent_sector + e.allocated_sectors

abbrev pub volume_label_sector : ℕ
volume_label_sector = 8190

abbrev pub default_system_vtoc_block : ℕ
default_system_vtoc_block = 841

abbrev pub user_vtoc_block : ℕ
user_vtoc_block = 843

abbrev pub user_vtoc_blocks : ℕ
user_vtoc_blocks = 48

abbrev pub entry_bytes : ℕ
entry_bytes = 128

abbrev pub search_sectors : ℕ
search_sectors = 40

abbrev pub fallback : ℕ
fallback = default_system_vtoc_block * sectors_per_block

abbrev pub is_label : List ℕ → Bool
is_label buf = get_or buf 0 0 == 0xc6 && get_or buf 1 0 == 0xf1

-- The sector of a label, the fallback where the read failed, or what the search finds further on.
abbrev pub at_label : Option (List ℕ) → (sector rest : ℕ) → ℕ
at_label none sector rest = fallback
at_label (some buf) sector rest = if is_label buf then sector else rest

-- The search of the first label, with the sectors left.
unfoldable pub search_label : (left : ℕ) → DiskBackend → (sector : ℕ) → ℕ
search_label zero v sector = fallback
search_label (suc left) v sector =
    let rest = search_label left v (sector + 1) in
    if leb v.sector_count sector
    then fallback
    else at_label (read_sector v (pos sector)) sector rest

abbrev pub is_volume_label : List ℕ → Bool
is_volume_label buf =
    get_or buf 0 0 == 0xe5
    && (get_or buf 1 0 == 0xd6 && (get_or buf 2 0 == 0xd3 && get_or buf 3 0 == 0xf1))

unfoldable pub from_volume_label : DiskBackend → Option (List ℕ) → ℕ
from_volume_label v none = fallback
from_volume_label v (some buf) =
    let at = be24 buf 0x0d in
    if not (is_volume_label buf)
    then fallback
    else if at == 0 || leb v.sector_count at
    then fallback
    else search_label search_sectors v at

unfoldable pub system_sector_of : Option DiskBackend → ℕ
system_sector_of none = fallback
system_sector_of (some v) =
    if leb v.sector_count volume_label_sector
    then fallback
    else from_volume_label v (read_sector v (pos volume_label_sector))

unfoldable pub system_block_of : Option DiskBackend → ℕ
system_block_of v = system_sector_of v / sectors_per_block

-- A printable character.
abbrev pub is_clean : ℕ → Bool
is_clean c = leb 0x20 c && ltb c 127

unfoldable pub clean_bytes : List ℕ → List ℕ
clean_bytes [] = []
clean_bytes (c ∷ rest) = let kept = clean_bytes rest in if is_clean c then c ∷ kept else kept

module _ (is_blank : ℕ → Bool) where
  unfoldable pub trim_start : List ℕ → List ℕ
  trim_start [] = []
  trim_start (c ∷ rest) = let kept = trim_start rest in if is_blank c then kept else c ∷ rest

  abbrev pub put_kept : ℕ → List ℕ → List ℕ
  put_kept c [] = if is_blank c then [] else c ∷ []
  put_kept c (d ∷ kept) = c ∷ d ∷ kept

  unfoldable pub trim_tail : List ℕ → List ℕ
  trim_tail [] = []
  trim_tail (c ∷ rest) = put_kept c (trim_tail rest)

abbrev pub is_space : ℕ → Bool
is_space c = c == 0x20

unfoldable pub clean_name : List ℕ → List ℕ
clean_name raw = trim_tail is_space (trim_start is_space (clean_bytes raw))

unfoldable pub type_of : ℕ → VtocEntryType
type_of b =
    if b == 0x80
    then indexed_file
    else if b == 0x40
    then sequential_file
    else if b == 0x20
    then direct_file
    else if b == 0x08
    then library
    else if b == 0x02
    then folder
    else unknown

unfoldable pub entry_of : List ℕ → VtocEntry
entry_of e = record {
  name = clean_name (to_ascii (take 8 (drop 4 e)) cp500);
  entry_type = type_of (get_or e 2 0);
  extent_sector = be24 e 0x27;
  data_sector = be24 e 0x21;
  allocated_sectors = be24 e 0x2a;
  record_length = be16 e 0x3d;
  records_used = be16 e 0x37;
  capacity = be24 e 0x4d;
}

abbrev pub or_end : Option (List ℕ) → List ℕ → List ℕ
or_end none rest = []
or_end (some buf) rest = buf ++ rest

-- The bytes of so many sectors, up to the first that is not read.
unfoldable pub read_sectors : (left : ℕ) → DiskBackend → (sector : ℕ) → List ℕ
read_sectors zero v sector = []
read_sectors (suc left) v sector =
    let rest = read_sectors left v (sector + 1) in
    if leb v.sector_count sector then [] else or_end (read_sector v (pos sector)) rest

-- The labels among so many entries.
unfoldable pub entries : (count : ℕ) → List ℕ → List VtocEntry
entries zero bytes = []
entries (suc n) bytes =
    let rest = entries n (drop entry_bytes bytes) in
    if is_label bytes then entry_of bytes ∷ rest else rest

unfoldable pub read_at : DiskBackend → (first sectors : ℕ) → List VtocEntry
read_at v at sectors = let all = read_sectors sectors v at in entries (length all / entry_bytes) all

unfoldable pub read_system : DiskBackend → List VtocEntry
read_system v = read_at v (system_sector_of (some v)) sectors_per_block

unfoldable pub read_user : DiskBackend → List VtocEntry
read_user v =
    read_at v
      (system_sector_of (some v)
        + (user_vtoc_block - default_system_vtoc_block) * sectors_per_block)
      (user_vtoc_blocks * sectors_per_block)

unfoldable pub read_blocks_at : DiskBackend → (start_block blocks : ℕ) → List VtocEntry
read_blocks_at v start_block blocks =
    read_at v (start_block * sectors_per_block) (blocks * sectors_per_block)
