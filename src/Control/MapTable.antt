-- ===== src/Control/MapTable.antt =====
-- `MapTable` of src/Processors/ControlStorage/MapParameterList.{h,cpp}: the map table of a request
-- block, which is rewritten in main storage when pages are mapped. Numbers that the code expects not
-- to be negative are natural.
pub mod Bytes
pub mod Unmap
pub mod Kept
mod Tests
use sim.Base.{ℕ, zero, suc, ◌+◌, ◌-◌, ◌*◌, ◌%◌, ◌^◌, Bool, bit_and, leb, ◌==◌, if◌then◌else◌}
use sim.Machine.State.{Machine, read_byte, write_byte, read_half, write_half, write_addr24}

abbrev pub unit_bytes : ℕ
unit_bytes = 16

abbrev pub entry_bytes : ℕ
entry_bytes = 8

-- The byte address that the target page of an entry of the parameter list means.
unfoldable pub target_address : ℕ → ℕ
target_address parm0 = bit_and parm0 0xf8 * 2 ^ 8

unfoldable pub base : Machine → (rb pb : ℕ) → ℕ × Machine
base m rb pb = let (units, m') = read_byte m (pb + 63) in (rb + 64 + units * unit_bytes, m')

unfoldable pub count : Machine → (rb : ℕ) → ℕ × Machine
count m rb = read_byte m (rb + 40)

unfoldable pub set_count : Machine → (rb n : ℕ) → Machine
set_count m rb n = write_byte m (rb + 40) (n % 2 ^ 8)

unfoldable pub block_end : Machine → (rb : ℕ) → ℕ × Machine
block_end m rb = let (units, m') = read_byte m (rb + 2) in (rb + units * unit_bytes, m')

unfoldable pub write : Machine → (at start_page pages displacement block : ℕ) → Machine
write m at start_page pages displacement block =
    let m1 = write_byte m at (start_page % 2 ^ 8) in
    let m2 = write_byte m1 (at + 1) (pages % 2 ^ 8) in
    write_addr24 (write_half m2 (at + 2) (displacement % 2 ^ 16)) (at + 5) block

-- One turn of the loop, for the entry at `e`. What the code would keep of a negative number of
-- pages is zero.
unfoldable pub unmap_entry : Machine → (e start_page new_end : ℕ) → (whole : Bool) → Machine
unmap_entry m e start_page new_end whole =
    let (at, m1) = read_byte m e in
    let (len, m2) = read_byte m1 (e + 1) in
    let last = at + len in
    let shift = new_end - at in
    let m3 = write_byte m2 e ((at + shift) % 2 ^ 8) in
    let (displacement, m4) = read_half m3 (e + 2) in
    if leb last 0
    then m2
    else if leb last start_page
    then m2
    else if leb new_end at
    then m2
    else if whole
    then write_byte m2 (e + 1) 0
    else if leb last new_end
    then write_byte m2 (e + 1) ((len - (last - start_page)) % 2 ^ 8)
    else if leb start_page at
    then write_byte (write_half m4 (e + 2) ((displacement + shift) % 2 ^ 16)) (e + 1)
        ((len - shift) % 2 ^ 8)
    else m2

unfoldable pub unmap_entries :
    (left : ℕ) → Machine → (e start_page new_end : ℕ) → (whole : Bool) → Machine
unmap_entries zero m e start_page new_end whole = m
unmap_entries (suc n) m e start_page new_end whole =
    unmap_entries n (unmap_entry m e start_page new_end whole) (e + entry_bytes) start_page new_end
      whole

unfoldable pub unmap : Machine → (rb pb start_page pages : ℕ) → (whole : Bool) → Machine
unfolding base count
unmap m rb pb start_page pages whole =
    let (table, m1) = base m rb pb in
    let (n, m2) = count m1 rb in
    unmap_entries n m2 table start_page ((start_page + pages) % 2 ^ 16) whole
