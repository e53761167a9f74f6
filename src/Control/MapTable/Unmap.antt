-- ===== src/Control/MapTable/Unmap.antt =====
-- The pages that stay mapped after `MapTable::unmap` of
-- src/Processors/ControlStorage/MapParameterList.cpp.
use sim.Base.{
  ℕ, ◌+◌, ◌-◌, ◌%◌, ◌^◌, ◌≤◌, ◌<◌, Bool, true, false, Option, none, leb, ◌≡◌, ◌⊎◌, inl, inr, refl,
  ap, subst, sym, ◌∙◌, arith, if-property,
}
use sim.Machine.State.{poke, copy_in}
use sim.Machine.State.Access.{half_bytes, half_join, copy_in-outside}
use sim.Control.MapTable.Bytes.{
  half_at, object_page, entry_page, page_left, entry_after, overlap_after, tail_after,
}

entry_page-poke :
    (f : ℕ → ℕ) (e v p : ℕ)
    → entry_page (poke f (e + 1) v) e p ≡ object_page (f e) v (half_at f (e + 2)) p
entry_page-poke f e v p = ground arith

half_at-poke : (f : ℕ → ℕ) (e v : ℕ) → half_at (poke f e v) (e + 2) ≡ half_at f (e + 2)
half_at-poke f e v = ground arith

same_page :
    {at at' len len' d d' : ℕ} (p : ℕ)
    → at ≡ at'
    → len ≡ len'
    → d ≡ d'
    → object_page at len d p ≡ object_page at' len' d' p
same_page p a l d = cc

half_at-len : (f : ℕ → ℕ) (e v : ℕ) → half_at (poke f (e + 1) v) (e + 2) ≡ half_at f (e + 2)
half_at-len f e v = ground arith

entry_page-tail :
    (f : ℕ → ℕ) (e first d len p : ℕ)
    → d < 2 ^ 16
    → entry_page (poke (copy_in (poke f e first) (e + 2) (half_bytes d)) (e + 1) len) e p
      ≡ object_page first len d p
entry_page-tail f e first d len p small =
    let g = copy_in (poke f e first) (e + 2) (half_bytes d) in
    same_page p (ground (arith, copy_in-outside (poke f e first) (e + 2) (half_bytes d) e))
      (ground arith) (half_at-len g e len ∙ (half_join (poke f e first) (e + 2) d small).0)

kept_head :
    (at len len' d start_page new_end p : ℕ)
    → at + len ≤ new_end
    → (at + len' ≡ start_page) × (start_page < at + len) ⊎ (len' ≡ 0) × (start_page ≤ at)
    → object_page at len' d p ≡ page_left at len start_page new_end false p (object_page at len d p)
unfolding page_left
kept_head at len len' d start_page new_end p ends (inl (trimmed, starts)) =
    subst
      (λ s. object_page at len' d p ≡ page_left at len s new_end false p (object_page at len d p))
      trimmed (ground arith)
kept_head at len len' d start_page new_end p ends (inr (nothing, starts)) =
    subst
      (λ l.
        object_page at l d p ≡ page_left at len start_page new_end false p (object_page at len d p))
      (sym nothing) (ground arith)

kept_tail :
    (at len at' len' d d' start_page new_end p : ℕ)
    → new_end < at + len
    → start_page ≤ at
    → at < new_end
    → at' ≡ new_end
    → at' + len' ≡ at + len
    → d' + at ≡ d + new_end
    → object_page at' len' d' p
      ≡ page_left at len start_page new_end false p (object_page at len d p)
unfolding page_left
kept_tail at len at' len' d d' start_page new_end p ends starts some_new a l moved = ground arith

module _ (at len d start_page new_end p : ℕ) (some_old : start_page < at + len)
    (some_new : at < new_end) (in_byte : len < 2 ^ 8) where
  page_left-head :
      at + len ≤ new_end
      → object_page at ((len - (at + len - start_page)) % 2 ^ 8) d p
        ≡ page_left at len start_page new_end false p (object_page at len d p)
  page_left-head ends =
      kept_head at len ((len - (at + len - start_page)) % 2 ^ 8) d start_page new_end p ends
        (ground arith)

  page_left-tail :
      new_end < at + len
      → start_page ≤ at
      → new_end < 2 ^ 8
      → d + 2 ^ 8 ≤ 2 ^ 16
      → object_page
          ((at + (new_end - at)) % 2 ^ 8)
          ((len - (new_end - at)) % 2 ^ 8)
          ((d + (new_end - at)) % 2 ^ 16)
          p
        ≡ page_left at len start_page new_end false p (object_page at len d p)
  page_left-tail ends starts small room =
      kept_tail at len _ _ d _ start_page new_end p ends starts some_new (omega arith) (omega arith)
        (omega arith)

-- The table entry at `e`: bytes, and room for the displacement to advance.
abbrev pub IsEntry : (ℕ → ℕ) → ℕ → Type 0
IsEntry f e = (f e < 2 ^ 8) × (f (e + 1) < 2 ^ 8) × (half_at f (e + 2) + 2 ^ 8 ≤ 2 ^ 16)

page_left-whole :
    (at len d start_page new_end p : ℕ)
    → start_page < at + len
    → at < new_end
    → none ≡ page_left at len start_page new_end true p (object_page at len d p)
unfolding page_left
page_left-whole at len d start_page new_end p some_old some_new = ground arith

entry_page-none : (f : ℕ → ℕ) (e p : ℕ) → entry_page (poke f (e + 1) 0) e p ≡ none
entry_page-none f e p = ground arith

page_left-apart :
    (at len start_page new_end : ℕ) (whole : Bool) (p : ℕ) (old : Option ℕ)
    → (at + len ≤ start_page) ⊎ (new_end ≤ at)
    → old ≡ page_left at len start_page new_end whole p old
unfolding page_left
page_left-apart at len start_page new_end whole p old apart = ground arith

page_left-split :
    (at len start_page new_end p : ℕ) (old : Option ℕ)
    → at < start_page
    → new_end < at + len
    → old ≡ page_left at len start_page new_end false p old
unfolding page_left
page_left-split at len start_page new_end p old starts ends = ground arith

module _ (f : ℕ → ℕ) (e start_page new_end p : ℕ) (bytes : IsEntry f e)
    (small : new_end < 2 ^ 8) where
  -- The goal for the bytes `g`.
  abbrev IsLeft : (whole : Bool) → (ℕ → ℕ) → Type 0
  IsLeft whole g =
      entry_page g e p ≡ page_left (f e) (f (e + 1)) start_page new_end whole p (entry_page f e p)

  tail_kept :
      f e < new_end
      → new_end < f e + f (e + 1)
      → start_page ≤ f e
      → IsLeft false (
          tail_after f e
            ((f e + (new_end - f e)) % 2 ^ 8)
            (new_end - f e)
            ((f (e + 1) - (new_end - f e)) % 2 ^ 8))
  unfolding tail_after
  tail_kept some_new ends starts =
      let first = (f e + (new_end - f e)) % 2 ^ 8 in
      entry_page-tail f e first ((half_at (poke f e first) (e + 2) + (new_end - f e)) % 2 ^ 16) _ p
        (omega arith)
      ∙ same_page p refl refl (ap (λ d. (d + (new_end - f e)) % 2 ^ 16) (half_at-poke f e first))
      ∙ page_left-tail (f e) (f (e + 1)) (half_at f (e + 2)) start_page new_end p (omega arith)
          some_new (omega (arith, bytes.1)) ends starts small (omega (arith, bytes.2))

  overlap_kept :
      (whole : Bool)
      → start_page < f e + f (e + 1)
      → f e < new_end
      → IsLeft whole (overlap_after f e start_page new_end whole)
  unfolding overlap_after
  overlap_kept true some_old some_new =
      entry_page-none f e p
      ∙ page_left-whole (f e) (f (e + 1)) (half_at f (e + 2)) start_page new_end p some_old some_new
  overlap_kept false some_old some_new =
      if-property (IsLeft false) (leb (f e + f (e + 1)) new_end) _ _
        (λ ends.
          entry_page-poke f e _ p
          ∙ page_left-head (f e) (f (e + 1)) (half_at f (e + 2)) start_page new_end p some_old
              some_new (omega (arith, bytes.1)) (ground arith))
        (λ more.
          if-property (IsLeft false) (leb start_page (f e)) _ _
            (λ starts. tail_kept some_new (ground arith) (ground arith))
            (λ before.
              page_left-split (f e) (f (e + 1)) start_page new_end p _ (ground arith)
                (ground arith)))

  -- One turn leaves of the pages of its entry what it has to.
  pub entry_after-IsLeft : (whole : Bool) → IsLeft whole (entry_after f e start_page new_end whole)
  unfolding entry_after
  entry_after-IsLeft whole =
      let apart = page_left-apart (f e) (f (e + 1)) start_page new_end whole p (entry_page f e p) in
      if-property (IsLeft whole) (leb (f e + f (e + 1)) 0) _ _ (λ empty. apart (inl (ground arith)))
        (λ some_pages.
          if-property (IsLeft whole) (leb (f e + f (e + 1)) start_page) _ _
            (λ before. apart (inl (ground arith)))
            (λ some_old.
              if-property (IsLeft whole) (leb new_end (f e)) _ _
                (λ past. apart (inr (ground arith)))
                (λ some_new. overlap_kept whole (ground arith) (ground arith))))
