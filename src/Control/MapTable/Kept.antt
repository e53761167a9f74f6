-- ===== src/Control/MapTable/Kept.antt =====
-- The whole map table of src/Processors/ControlStorage/MapParameterList.cpp after `unmap`.
use sim.Base.{
  ℕ, zero, suc, ◌+◌, ◌*◌, ◌%◌, ◌^◌, ◌≤◌, ◌<◌, Bool, ◌≡◌, ◌⊎◌, inl, inr, refl, sym, subst, ◌∙◌,
  arith, leb, if-property,
}
use sim.Machine.State.{Machine, copy_in, poke}
use sim.Machine.State.Access.{read_byte_ok, copy_in-outside, half_bytes}
use sim.Control.MapTable.{entry_bytes, unmap, unmap_entries, base, count}
use sim.Control.MapTable.Bytes.{
  half_at, entry_page, page_left, entry_after, overlap_after, tail_after, with_storage,
  unmap_entry_ok,
}
use sim.Control.MapTable.Unmap.{IsEntry, entry_after-IsLeft}

poke-outside : (f : ℕ → ℕ) (e v b : ℕ) → (b < e) ⊎ (e + 4 ≤ b) → poke f (e + 1) v b ≡ f b
poke-outside f e v b apart = ground arith

tail_after-outside :
    (f : ℕ → ℕ) (e first shift len b : ℕ)
    → (b < e) ⊎ (e + 4 ≤ b)
    → tail_after f e first shift len b ≡ f b
unfolding tail_after
tail_after-outside f e first shift len b apart =
    let g = poke f e first in
    let ds = half_bytes ((half_at g (e + 2) + shift) % 2 ^ 16) in
    poke-outside (copy_in g (e + 2) ds) e len b apart
    ∙ copy_in-outside g (e + 2) ds b (ground arith)
    ∙ ground arith

module _ (start_page new_end : ℕ) (whole : Bool) where
  -- The bytes after so many turns of the loop.
  unfoldable entries_after : ℕ → (ℕ → ℕ) → (e : ℕ) → ℕ → ℕ
  entries_after zero f e = f
  entries_after (suc n) f e =
      entries_after n (entry_after f e start_page new_end whole) (e + entry_bytes)

  unmap_entries_ok :
      (n : ℕ) (m : Machine) (e : ℕ)
      → e + n * 8 ≤ m.size
      → unmap_entries n m e start_page new_end whole ≡ with_storage m (entries_after n m.storage e)
  unfolding unmap_entries entries_after
  unmap_entries_ok zero m e inside = refl
  unmap_entries_ok (suc n) m e inside =
      rw (unmap_entry_ok m e (omega arith) start_page new_end whole) (
        unmap_entries_ok n (with_storage m (entry_after m.storage e start_page new_end whole))
          (e + entry_bytes) (omega arith))

  entry_after-outside :
      (f : ℕ → ℕ) (e b : ℕ)
      → (b < e) ⊎ (e + 4 ≤ b)
      → entry_after f e start_page new_end whole b ≡ f b
  unfolding entry_after overlap_after
  entry_after-outside f e b apart =
      let Same = λ (g : ℕ → ℕ). g b ≡ f b in
      if-property Same (leb (f e + f (e + 1)) 0) _ _ (λ c. refl)
        (λ c.
          if-property Same (leb (f e + f (e + 1)) start_page) _ _ (λ c. refl)
            (λ c.
              if-property Same (leb new_end (f e)) _ _ (λ c. refl)
                (λ c.
                  if-property Same whole _ _ (λ c. poke-outside f e 0 b apart)
                    (λ c.
                      if-property Same (leb (f e + f (e + 1)) new_end) _ _
                        (λ c. poke-outside f e _ b apart)
                        (λ c.
                          if-property Same (leb start_page (f e)) _ _
                            (λ c. tail_after-outside f e _ _ _ b apart) (λ c. refl))))))

  entries_after-outside : (n : ℕ) (f : ℕ → ℕ) (e b : ℕ) → b < e → entries_after n f e b ≡ f b
  unfolding entries_after
  entries_after-outside zero f e b apart = refl
  entries_after-outside (suc n) f e b apart =
      entries_after-outside n (entry_after f e start_page new_end whole) (e + entry_bytes) b
        (omega arith)
      ∙ entry_after-outside f e b (inl apart)

  -- The block address of an entry is not written.
  entries_after-block :
      (n : ℕ) (f : ℕ → ℕ) (e i b : ℕ)
      → e + i * 8 + 4 ≤ b
      → b < e + i * 8 + 8
      → entries_after n f e b ≡ f b
  unfolding entries_after
  entries_after-block zero f e i b low high = refl
  entries_after-block (suc n) f e zero b low high =
      entries_after-outside n (entry_after f e start_page new_end whole) (e + entry_bytes) b
        (omega arith)
      ∙ entry_after-outside f e b (inr (omega arith))
  entries_after-block (suc n) f e (suc i) b low high =
      entries_after-block n (entry_after f e start_page new_end whole) (e + entry_bytes) i b
        (omega arith) (omega arith)
      ∙ entry_after-outside f e b (inr (omega arith))

  module _ (x p : ℕ) (small : new_end < 2 ^ 8) where
    abbrev IsLeft : (f g : ℕ → ℕ) → Type 0
    IsLeft f g =
        entry_page g x p ≡ page_left (f x) (f (x + 1)) start_page new_end whole p (entry_page f x p)

    -- The bytes that say which pages the entry maps.
    abbrev IsSame : (f g : ℕ → ℕ) → Type 0
    IsSame f g = (f x ≡ g x) × (f (x + 1) ≡ g (x + 1)) × (half_at f (x + 2) ≡ half_at g (x + 2))

    same_pages : (f g : ℕ → ℕ) → IsSame f g → entry_page f x p ≡ entry_page g x p
    same_pages f g (one, two, three) = cc

    IsSame-IsLeft : (f f' g : ℕ → ℕ) → IsSame f f' → IsLeft f' g → IsLeft f g
    IsSame-IsLeft f f' g (one, two, three) kept = cc

    IsSame-IsEntry : (f f' : ℕ → ℕ) → IsSame f f' → IsEntry f x → IsEntry f' x
    IsSame-IsEntry f f' (one, two, three) (first, len, room) =
        (omega arith, omega arith, subst (λ d. d + 2 ^ 8 ≤ 2 ^ 16) three room)

    outside-IsSame : (f g : ℕ → ℕ) → ((b : ℕ) → x ≤ b → b < x + 4 → f b ≡ g b) → IsSame f g
    outside-IsSame f g agree =
        let three = agree (x + 2) (omega arith) (omega arith) in
        let four = agree (x + 2 + 1) (omega arith) (omega arith) in
        (agree x (omega arith) (omega arith), agree (x + 1) (omega arith) (omega arith), cc)

    entries_after-IsLeft :
        (n : ℕ) (f : ℕ → ℕ) (e i : ℕ)
        → x ≡ e + i * 8
        → i < n
        → IsEntry f x
        → IsLeft f (entries_after n f e)
    unfolding entries_after
    entries_after-IsLeft zero f e i here before bytes = absurd (omega arith)
    entries_after-IsLeft (suc n) f e zero here before bytes =
        let g = entry_after f e start_page new_end whole in
        let e_x : e ≡ x = omega arith in
        same_pages (entries_after n g (e + entry_bytes)) g (
          outside-IsSame _ _
            (λ b low high. entries_after-outside n g (e + entry_bytes) b (omega arith)))
        ∙ subst (λ y. IsLeft f (entry_after f y start_page new_end whole)) (sym e_x)
            (entry_after-IsLeft f x start_page new_end p bytes small whole)
    entries_after-IsLeft (suc n) f e (suc i) here before bytes =
        let g = entry_after f e start_page new_end whole in
        let kept : IsSame f g =
          outside-IsSame f g (λ b low high. sym (entry_after-outside f e b (inr (omega arith)))) in
        IsSame-IsLeft f g (entries_after n g (e + entry_bytes)) kept (
          entries_after-IsLeft n g (e + entry_bytes) i (omega arith) (omega arith)
            (IsSame-IsEntry f g kept bytes))

-- The translation of pages by a map table after the pages from `start_page` on are unmapped.
abbrev pub IsUnmapped :
    (m after : Machine) → (start_page pages : ℕ) → (whole : Bool) → (x p : ℕ) → Type 0
IsUnmapped m after start_page pages whole x p =
    entry_page after.storage x p
    ≡ page_left (m.storage x) (m.storage (x + 1)) start_page (start_page + pages) whole p
        (entry_page m.storage x p)

module _ (m : Machine) (rb pb start_page pages : ℕ) (whole : Bool) (i : ℕ)
    (block_inside : rb + 40 < m.size) (program_inside : pb + 63 < m.size) where
  abbrev table : ℕ
  table = rb + 64 + m.storage (pb + 63) * 16

  unmap_ok :
      table + m.storage (rb + 40) * 8 ≤ m.size
      → start_page + pages < 2 ^ 16
      → unmap m rb pb start_page pages whole
        ≡ with_storage m (
            entries_after start_page
              (start_page + pages)
              whole
              (m.storage (rb + 40))
              m.storage
              table)
  unfolding unmap base count
  unmap_ok inside small =
      let end_same : (start_page + pages) % 2 ^ 16 ≡ start_page + pages = omega arith in
      rw (read_byte_ok m (pb + 63) program_inside, read_byte_ok m (rb + 40) block_inside, end_same)
        (unmap_entries_ok start_page (start_page + pages) whole (m.storage (rb + 40)) m table
          inside)

  -- The request block's entry count and the program's private area count are in main storage, and so
  -- is the whole table; the first page of the range and its number of pages add up to less
  -- than 2 ^ 8. Then every entry of bytes, whose displacement has room to advance by 2 ^ 8, maps each page after `unmap` as it has to: as before where the entry and the range
  -- have nothing in common; not at all when they do and whole entries go; as before again when the
  -- entry reaches past both ends of the range; and else as before outside of the range and not at
  -- all in it. The block address of the entry stays.
  pub unmap-IsUnmapped :
      (p b : ℕ)
      → table + m.storage (rb + 40) * 8 ≤ m.size
      → start_page + pages < 2 ^ 8
      → i < m.storage (rb + 40)
      → IsEntry m.storage (table + i * 8)
      → b < 3
      → IsUnmapped m (unmap m rb pb start_page pages whole) start_page pages whole (table + i * 8) p
        × ((unmap m rb pb start_page pages whole).storage (table + i * 8 + 5 + b)
            ≡ m.storage (table + i * 8 + 5 + b))
  unmap-IsUnmapped p b inside small before bytes in_block = rw (unmap_ok inside (omega arith)) (
    entries_after-IsLeft start_page (start_page + pages) whole (table + i * 8) p small
        (m.storage (rb + 40)) m.storage table i refl before bytes,
    entries_after-block start_page (start_page + pages) whole (m.storage (rb + 40)) m.storage table
        i (table + i * 8 + 5 + b) (omega arith) (omega arith),
  )
