-- ===== src/Storage/Disk/Members.antt =====
-- The members that src/Storage/Library.cpp lists lie in their library.
use sim.Base.{
  ℕ, zero, suc, ◌+◌, ◌<◌, false, not, ◌&&◌, ◌||◌, Option, none, some, List, [], ◌∷◌, ◌++◌, leb,
  ◌==◌, All, drop, ◌≡◌, arith, if-property,
}
use sim.Base.Int.{pos}
use sim.Storage.Disk.{DiskBackend, read_sector, be24}
use sim.Storage.Disk.Vtoc.{VtocEntry, end_sector}
use sim.Storage.Disk.Library.{
  member_name, member_from, LibraryMember, MemberKind, absolute_sector, member_of, member_at,
  sector_members, is_none, members_in, member_bytes, is_unnamed, after_sector, read_members, read,
}

-- The member has a name, and begins behind the library's header sector and before its end.
abbrev pub IsMember : VtocEntry → LibraryMember → Type 0
IsMember lib m =
    (lib.extent_sector < absolute_sector lib m)
    × (absolute_sector lib m < end_sector lib)
    × (is_unnamed m.name ≡ false)

All-append :
    (lib : VtocEntry) (xs ys : List LibraryMember)
    → All (IsMember lib) xs
    → All (IsMember lib) ys
    → All (IsMember lib) (xs ++ ys)
All-append lib [] ys h k = k
All-append lib (x ∷ xs) ys (first_one, h) k = (first_one, All-append lib xs ys h k)

member_of-IsMember :
    (lib : VtocEntry) (kind : MemberKind) (entry : List ℕ)
    → All (IsMember lib) (member_of lib kind entry)
unfolding member_of member_from absolute_sector end_sector
member_of-IsMember lib kind entry =
    if-property (All (IsMember lib)) (is_unnamed (member_name entry)) _ _ (λ unnamed. tt)
      (λ named.
        if-property (All (IsMember lib))
          (be24 entry 0x09 == 0 || leb lib.allocated_sectors (be24 entry 0x09)) []
          (member_from kind entry ∷ []) (λ outside. tt)
          (λ inside. ((ground arith, ground arith, named), tt)))

member_at-IsMember :
    (lib : VtocEntry) (kind : Option MemberKind) (entry : List ℕ)
    → All (IsMember lib) (member_at lib kind entry)
unfolding member_at
member_at-IsMember lib none entry = tt
member_at-IsMember lib (some kind) entry = member_of-IsMember lib kind entry

sector_members-IsMember :
    (count : ℕ) (lib : VtocEntry) (buf : List ℕ) → All (IsMember lib) (sector_members count lib buf)
unfolding sector_members
sector_members-IsMember zero lib buf = tt
sector_members-IsMember (suc n) lib buf =
    All-append lib _ _ (member_at-IsMember lib _ buf)
      (sector_members-IsMember n lib (drop member_bytes buf))

members_in-IsMember :
    (lib : VtocEntry) (buf : Option (List ℕ)) → All (IsMember lib) (members_in lib buf)
unfolding members_in
members_in-IsMember lib none = tt
members_in-IsMember lib (some buf) = sector_members-IsMember _ lib buf

after_sector-IsMember :
    (lib : VtocEntry) (buf : Option (List ℕ)) (members new rest : List LibraryMember)
    → All (IsMember lib) members
    → All (IsMember lib) rest
    → All (IsMember lib) (after_sector buf members new rest)
unfolding after_sector
after_sector-IsMember lib none members new rest h k = h
after_sector-IsMember lib (some buf) members new rest h k =
    if-property (All (IsMember lib)) (is_none new && not (is_none members)) _ _ (λ end. h)
      (λ more. k)

read_members-IsMember :
    (left : ℕ) (v : DiskBackend) (lib : VtocEntry) (sector : ℕ) (members : List LibraryMember)
    → All (IsMember lib) members
    → All (IsMember lib) (read_members left v lib sector members)
unfolding read_members
read_members-IsMember zero v lib sector members h = h
read_members-IsMember (suc left) v lib sector members h =
    let new = members_in lib (read_sector v (pos sector)) in
    if-property (All (IsMember lib)) (leb v.sector_count sector) _ _ (λ outside. h)
      (λ inside. after_sector-IsMember lib (read_sector v (pos sector)) members new _ h (
        read_members-IsMember left v lib (sector + 1) (members ++ new)
          (All-append lib members new h (members_in-IsMember lib (read_sector v (pos sector))))))

-- Whatever the bytes of the volume, every member that is listed has a name and begins inside the
-- library, behind its header.
pub read-IsMember :
    (v : DiskBackend) (lib : VtocEntry) (max_sectors : ℕ)
    → All (IsMember lib) (read v lib max_sectors)
unfolding read
read-IsMember v lib max_sectors = read_members-IsMember _ v lib (lib.extent_sector + 1) [] tt
