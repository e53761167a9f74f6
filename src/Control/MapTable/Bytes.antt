-- ===== src/Control/MapTable/Bytes.antt =====
-- One entry of the map table of src/Processors/ControlStorage/MapParameterList.cpp as bytes of
-- main storage, and what a change of it does to the pages it maps.
use sim.Base.{
  ℕ, ◌+◌, ◌-◌, ◌*◌, ◌%◌, ◌^◌, ◌≤◌, Bool, true, false, ◌&&◌, Option, none, some, leb, ltb,
  if◌then◌else◌, ◌≡◌, refl, bit_or, not, arith,
}
use sim.Machine.State.{Machine, poke, copy_in, write_byte, read_half, write_half}
use sim.Machine.State.Access.{read_byte_ok, write_byte_ok, read_half_ok, write_half_ok, half_bytes}
use sim.Control.MapTable.{unmap_entry}

abbrev pub half_at : (ℕ → ℕ) → ℕ → ℕ
half_at f a = bit_or (f a * 2 ^ 8) (f (a + 1))

-- The page of its object that an entry maps a logical page to.
abbrev pub object_page : (at len displacement p : ℕ) → Option ℕ
object_page at len displacement p =
    if leb at p && ltb p (at + len) then some (displacement + (p - at)) else none

abbrev pub entry_page : (ℕ → ℕ) → (e p : ℕ) → Option ℕ
entry_page f e p = object_page (f e) (f (e + 1)) (half_at f (e + 2)) p

-- What has to become of a page of an entry when the pages from `start_page` to `new_end` are
-- unmapped.
unfoldable pub page_left :
    (at len start_page new_end : ℕ) → (whole : Bool) → (p : ℕ) → Option ℕ → Option ℕ
page_left at len start_page new_end whole p old =
    if not (ltb start_page (at + len) && ltb at new_end)
    then old
    else if whole
    then none
    else if ltb at start_page && ltb new_end (at + len)
    then old
    else if leb start_page p && ltb p new_end
    then none
    else old

-- An entry that keeps its tail: `first` is its new first page, `len` its new length.
unfoldable pub tail_after : (ℕ → ℕ) → (e first shift len : ℕ) → ℕ → ℕ
tail_after f e first shift len =
    let g = poke f e first in
    poke (copy_in g (e + 2) (half_bytes ((half_at g (e + 2) + shift) % 2 ^ 16))) (e + 1) len

-- The bytes after one turn of the loop for an entry that overlaps the range.
unfoldable pub overlap_after : (ℕ → ℕ) → (e start_page new_end : ℕ) → (whole : Bool) → ℕ → ℕ
overlap_after f e start_page new_end whole =
    let at = f e in
    let len = f (e + 1) in
    let shift = new_end - at in
    if whole
    then poke f (e + 1) 0
    else if leb (at + len) new_end
    then poke f (e + 1) ((len - (at + len - start_page)) % 2 ^ 8)
    else if leb start_page at
    then tail_after f e ((at + shift) % 2 ^ 8) shift ((len - shift) % 2 ^ 8)
    else f

-- The bytes after one turn of the loop.
unfoldable pub entry_after : (ℕ → ℕ) → (e start_page new_end : ℕ) → (whole : Bool) → ℕ → ℕ
entry_after f e start_page new_end whole =
    let at = f e in
    let len = f (e + 1) in
    if leb (at + len) 0
    then f
    else if leb (at + len) start_page
    then f
    else if leb new_end at
    then f
    else overlap_after f e start_page new_end whole

abbrev pub with_storage : Machine → (ℕ → ℕ) → Machine
with_storage m f = record m { storage = f }

if_storage :
    (m : Machine) (b : Bool) (x y : Machine) (f g : ℕ → ℕ)
    → x ≡ with_storage m f
    → y ≡ with_storage m g
    → (if b then x else y) ≡ with_storage m (if b then f else g)
if_storage m true x y f g same other = same
if_storage m false x y f g same other = other

module _ (m : Machine) (e : ℕ) (inside : e + 8 ≤ m.size) where
  keep_tail_ok :
      (v shift len : ℕ)
      → (let m3 = write_byte m e v in
          let (displacement, m4) = read_half m3 (e + 2) in
          write_byte (write_half m4 (e + 2) ((displacement + shift) % 2 ^ 16)) (e + 1) len)
        ≡ with_storage m (tail_after m.storage e v shift len)
  unfolding tail_after
  keep_tail_ok v shift len =
      let f3 = poke m.storage e v in
      let d = (half_at f3 (e + 2) + shift) % 2 ^ 16 in
      let f5 = copy_in f3 (e + 2) (half_bytes d) in
      rw
        (
          write_byte_ok m e v (omega arith),
          read_half_ok (with_storage m f3) (e + 2) (omega arith),
          write_half_ok (with_storage m f3) (e + 2) d (omega arith),
          write_byte_ok (with_storage m f5) (e + 1) len (omega arith),
        )
        refl

  -- The turn of the loop on storage that holds the entry.
  pub unmap_entry_ok :
      (start_page new_end : ℕ) (whole : Bool)
      → unmap_entry m e start_page new_end whole
        ≡ with_storage m (entry_after m.storage e start_page new_end whole)
  unfolding unmap_entry entry_after overlap_after
  unmap_entry_ok start_page new_end whole =
      let at = m.storage e in
      let len = m.storage (e + 1) in
      rw (read_byte_ok m e (omega arith), read_byte_ok m (e + 1) (omega arith))
        (if_storage m (leb (at + len) 0) _ _ _ _ refl (
          if_storage m (leb (at + len) start_page) _ _ _ _ refl (
            if_storage m (leb new_end at) _ _ _ _ refl (
              if_storage m whole _ _ _ _ (write_byte_ok m (e + 1) 0 (omega arith)) (
                if_storage m (leb (at + len) new_end) _ _ _ _
                  (write_byte_ok m (e + 1) ((len - (at + len - start_page)) % 2 ^ 8) (omega arith))
                  (if_storage m (leb start_page at) _ _ _ _
                    (keep_tail_ok ((at + (new_end - at)) % 2 ^ 8) (new_end - at)
                      ((len - (new_end - at)) % 2 ^ 8))
                    refl))))))
