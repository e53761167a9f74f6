-- ===== src/Storage/Disk/Library.antt =====
-- `LibraryDirectory` of src/Storage/Library.{h,cpp}: the members of a library.
use sim.Base.{
  ℕ, zero, suc, ◌+◌, Bool, true, false, not, ◌&&◌, ◌||◌, Option, none, some, List, [], ◌∷◌, ◌++◌,
  ltb, leb, ◌==◌, if◌then◌else◌, take, drop, get_or,
}
use sim.Base.Int.{pos}
use sim.Storage.Ebcdic.{cp500, to_ascii}
use sim.Storage.Disk.{DiskBackend, read_sector, be16, be24}
use sim.Storage.Disk.Vtoc.{VtocEntry, trim_start, trim_tail}

pub data MemberKind : Type 0 where
  load_member : MemberKind
  procedure_member : MemberKind
  subroutine_member : MemberKind
  source_member : MemberKind

pub record LibraryMember : Type 0 where
  pub kind : MemberKind
  pub name : List ℕ
  pub relative_sector : ℕ
  pub sectors : ℕ
  pub link_address : ℕ
  pub attributes : ℕ

unfoldable pub absolute_sector : VtocEntry → LibraryMember → ℕ
absolute_sector lib m = lib.extent_sector + m.relative_sector

abbrev pub member_bytes : ℕ
member_bytes = 51

abbrev pub entries_per_sector : ℕ
entries_per_sector = 5

unfoldable pub kind_of : ℕ → Option MemberKind
kind_of b =
    if b == 0xd6
    then some load_member
    else if b == 0xd7
    then some procedure_member
    else if b == 0xd9
    then some subroutine_member
    else if b == 0xe2
    then some source_member
    else none

abbrev pub is_white : ℕ → Bool
is_white c = c == 0x20 || (c == 0x09 || (c == 0x0d || c == 0x0a))

unfoldable pub trim : List ℕ → List ℕ
trim s = trim_tail is_white (trim_start is_white s)

abbrev pub is_unnamed : List ℕ → Bool
is_unnamed [] = true
is_unnamed (c ∷ rest) = ltb c 0x20

unfoldable pub member_name : List ℕ → List ℕ
member_name entry = trim (to_ascii (take 8 (drop 1 entry)) cp500)

unfoldable pub member_from : MemberKind → List ℕ → LibraryMember
member_from kind entry = record {
  kind = kind;
  name = member_name entry;
  relative_sector = be24 entry 0x09;
  sectors = get_or entry 0x0c 0;
  link_address = be16 entry 0x0d;
  attributes = get_or entry 0x13 0;
}

unfoldable pub member_of : VtocEntry → MemberKind → List ℕ → List LibraryMember
member_of lib kind entry =
    let rel = be24 entry 0x09 in
    if is_unnamed (member_name entry)
    then []
    else if rel == 0 || leb lib.allocated_sectors rel
    then []
    else member_from kind entry ∷ []

-- The member of an entry, or none.
unfoldable pub member_at : VtocEntry → Option MemberKind → List ℕ → List LibraryMember
member_at lib none entry = []
member_at lib (some kind) entry = member_of lib kind entry

unfoldable pub sector_members : (count : ℕ) → VtocEntry → List ℕ → List LibraryMember
sector_members zero lib buf = []
sector_members (suc n) lib buf =
    member_at lib (kind_of (get_or buf 0 0)) buf ++ sector_members n lib (drop member_bytes buf)

abbrev pub is_none : List LibraryMember → Bool
is_none [] = true
is_none (m ∷ ms) = false

unfoldable pub members_in : VtocEntry → Option (List ℕ) → List LibraryMember
members_in lib none = []
members_in lib (some buf) = sector_members entries_per_sector lib buf

-- The members after a sector: a sector that is not read ends the directory, and so does one without
-- members behind others.
unfoldable pub after_sector :
    Option (List ℕ) → (members new rest : List LibraryMember) → List LibraryMember
after_sector none members new rest = members
after_sector (some buf) members new rest =
    if is_none new && not (is_none members) then members else rest

-- The sectors of the directory that are left, after so many members.
unfoldable pub read_members :
    (left : ℕ) → DiskBackend → VtocEntry → (sector : ℕ) → List LibraryMember → List LibraryMember
read_members zero v lib sector members = members
read_members (suc left) v lib sector members =
    let new = members_in lib (read_sector v (pos sector)) in
    let rest = read_members left v lib (sector + 1) (members ++ new) in
    if leb v.sector_count sector
    then members
    else after_sector (read_sector v (pos sector)) members new rest

unfoldable pub read : DiskBackend → VtocEntry → (max_sectors : ℕ) → List LibraryMember
read v lib max_sectors =
    let limit =
      if ltb lib.allocated_sectors max_sectors then lib.allocated_sectors else max_sectors in
    read_members limit v lib (lib.extent_sector + 1) []
