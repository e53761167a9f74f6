-- ===== src/Storage/Disk/Search.antt =====
-- Where `systemSectorOf` of src/Storage/Vtoc.cpp finds the system's labels.
use sim.Base.{
  if_on, if_off, ◌≢◌, ℕ, zero, suc, ◌+◌, ◌<◌, Bool, true, false, not, ◌||◌, Option, none, some,
  List, leb, ◌==◌, ◌≡◌, ◌⊎◌, inl, inr, refl, sym, ap, subst, ◌∙◌, arith, if-property,
}
use sim.Base.Int.{pos}
use sim.Storage.Disk.{DiskBackend, read_sector, be24}
use sim.Storage.Disk.Vtoc.{
  fallback, is_label, at_label, search_label, search_sectors, is_volume_label, from_volume_label,
  system_sector_of, volume_label_sector,
}

abbrev pub bears_label : Option (List ℕ) → Bool
bears_label none = false
bears_label (some buf) = is_label buf

-- How many sectors from `first` on bear no label.
abbrev pub Unlabelled : DiskBackend → (first count : ℕ) → Type 0
Unlabelled v at zero = Unit
Unlabelled v at (suc n) = (bears_label (read_sector v (pos at)) ≡ false) × Unlabelled v (at + 1) n

-- The first label of the sectors from `first` on, within the reach of the search.
abbrev pub IsFirstLabel : DiskBackend → (first reach sector : ℕ) → Type 0
IsFirstLabel v at reach sector =
    (n : ℕ) × (n < reach)
    × (sector ≡ at + n)
    × (sector < v.sector_count)
    × (bears_label (read_sector v (pos sector)) ≡ true)
    × Unlabelled v at n

at_label-IsFirstLabel :
    (left : ℕ) (v : DiskBackend) (at rest : ℕ) (buf : Option (List ℕ))
    → read_sector v (pos at) ≡ buf
    → at < v.sector_count
    → (rest ≡ fallback) ⊎ IsFirstLabel v (at + 1) left rest
    → (at_label buf at rest ≡ fallback) ⊎ IsFirstLabel v at (suc left) (at_label buf at rest)
at_label-IsFirstLabel left v at rest none e inside found = inl refl
at_label-IsFirstLabel left v at rest (some buf) e inside found =
    if-property (λ s. (s ≡ fallback) ⊎ IsFirstLabel v at (suc left) s) (is_label buf) at rest
      (λ label. inr (0, omega arith, omega arith, inside, ap bears_label e ∙ label, tt))
      (λ other. elim found [
        | inl none_found ↦ inl none_found
        | inr (n, reach, place, below, label, before) ↦
            inr (suc n, omega arith, omega arith, below, label, (ap bears_label e ∙ other, before))
      ])

search_label-IsFirstLabel :
    (left : ℕ) (v : DiskBackend) (at : ℕ)
    → (search_label left v at ≡ fallback) ⊎ IsFirstLabel v at left (search_label left v at)
unfolding search_label
search_label-IsFirstLabel zero v at = inl refl
search_label-IsFirstLabel (suc left) v at =
    if-property (λ s. (s ≡ fallback) ⊎ IsFirstLabel v at (suc left) s) (leb v.sector_count at) _ _
      (λ outside. inl refl)
      (λ inside.
        at_label-IsFirstLabel left v at (search_label left v (at + 1)) (read_sector v (pos at)) refl
          (ground arith) (search_label-IsFirstLabel left v (at + 1)))

-- The sector where the volume label says that the labels begin.
abbrev pub label_pointer : Option (List ℕ) → ℕ
label_pointer none = 0
label_pointer (some buf) = be24 buf 0x0d

from_volume_label-IsFirstLabel :
    (v : DiskBackend) (buf : Option (List ℕ))
    → (from_volume_label v buf ≡ fallback)
      ⊎ IsFirstLabel v (label_pointer buf) search_sectors (from_volume_label v buf)
unfolding from_volume_label
from_volume_label-IsFirstLabel v none = inl refl
from_volume_label-IsFirstLabel v (some buf) =
    if-property (λ s. (s ≡ fallback) ⊎ IsFirstLabel v (be24 buf 0x0d) search_sectors s)
      (not (is_volume_label buf)) _ _ (λ other. inl refl)
      (λ labelled.
        if-property (λ s. (s ≡ fallback) ⊎ IsFirstLabel v (be24 buf 0x0d) search_sectors s)
          (be24 buf 0x0d == 0 || leb v.sector_count (be24 buf 0x0d)) _ _ (λ wild. inl refl)
          (λ near. search_label-IsFirstLabel search_sectors v (be24 buf 0x0d)))

-- The system's labels begin at the first label within forty sectors of where the volume label
-- points, or at the reference volume's place.
pub system_sector_of-IsFirstLabel :
    (v : DiskBackend)
    → (system_sector_of (some v) ≡ fallback)
      ⊎ IsFirstLabel v
          (label_pointer (read_sector v (pos volume_label_sector)))
          search_sectors
          (system_sector_of (some v))
unfolding system_sector_of
system_sector_of-IsFirstLabel v =
    let pointer = label_pointer (read_sector v (pos volume_label_sector)) in
    if-property (λ s. (s ≡ fallback) ⊎ IsFirstLabel v pointer search_sectors s)
      (leb v.sector_count volume_label_sector) _ _ (λ short. inl refl)
      (λ long. from_volume_label-IsFirstLabel v (read_sector v (pos volume_label_sector)))

at_label-other :
    (buf : Option (List ℕ)) (at rest : ℕ)
    → buf ≢ none
    → bears_label buf ≡ false
    → at_label buf at rest ≡ rest
at_label-other none at rest read other = absurd (read refl)
at_label-other (some buf) at rest read other = rw other refl

at_label-here :
    (buf : Option (List ℕ)) (at rest : ℕ) → bears_label buf ≡ true → at_label buf at rest ≡ at
at_label-here none at rest label = cc
at_label-here (some buf) at rest label = rw label refl

read_sector-inside :
    (v : DiskBackend) (sector : ℕ) → sector < v.sector_count → read_sector v (pos sector) ≢ none
unfolding read_sector
read_sector-inside v sector h = λ e. absurd (ground arith)

search_label-finds :
    (n left : ℕ) (v : DiskBackend) (at : ℕ)
    → n < left
    → at + n < v.sector_count
    → Unlabelled v at n
    → bears_label (read_sector v (pos (at + n))) ≡ true
    → search_label left v at ≡ at + n
unfolding search_label
search_label-finds n zero v at near inside before label = absurd (omega arith)
search_label-finds zero (suc left) v at near inside before label =
    let here : at + 0 ≡ at = omega arith in
    if_off (leb v.sector_count at) _ _ (ground arith)
    ∙ at_label-here (read_sector v (pos at)) at (search_label left v (at + 1))
        (subst (λ s. bears_label (read_sector v (pos s)) ≡ true) here label)
    ∙ sym here
search_label-finds (suc n) (suc left) v at near inside (other, before) label =
    let next : at + suc n ≡ at + 1 + n = omega arith in
    if_off (leb v.sector_count at) _ _ (ground arith)
    ∙ at_label-other (read_sector v (pos at)) at (search_label left v (at + 1))
        (read_sector-inside v at (omega arith)) other
    ∙ search_label-finds n left v (at + 1) (omega arith) (omega arith) before
        (subst (λ s. bears_label (read_sector v (pos s)) ≡ true) next label)
    ∙ sym next

-- The volume label is there, and points behind the start of the volume.
abbrev pub Points : Option (List ℕ) → (at : ℕ) → Type 0
Points none at = ⊥
Points (some buf) at = (is_volume_label buf ≡ true) × (be24 buf 0x0d ≡ at) × (0 < at)

from_volume_label-finds :
    (v : DiskBackend) (buf : Option (List ℕ)) (at n : ℕ)
    → Points buf at
    → n < search_sectors
    → at + n < v.sector_count
    → Unlabelled v at n
    → bears_label (read_sector v (pos (at + n))) ≡ true
    → from_volume_label v buf ≡ at + n
unfolding from_volume_label
from_volume_label-finds v none at n points near inside before label = absurd points
from_volume_label-finds v (some buf) at n (volume, place, behind) near inside before label =
    if_on (is_volume_label buf) _ _ volume
    ∙ if_off (be24 buf 0x0d == 0 || leb v.sector_count (be24 buf 0x0d)) _ _ (ground arith)
    ∙ ap (search_label search_sectors v) place
    ∙ search_label-finds n search_sectors v at near inside before label

-- A volume whose label points to `at` has its system labels at the first labelled sector from there
-- on, when that is one of the next forty and inside the volume.
pub system_sector_of-finds :
    (v : DiskBackend) (at n : ℕ)
    → volume_label_sector < v.sector_count
    → Points (read_sector v (pos volume_label_sector)) at
    → n < search_sectors
    → at + n < v.sector_count
    → Unlabelled v at n
    → bears_label (read_sector v (pos (at + n))) ≡ true
    → system_sector_of (some v) ≡ at + n
unfolding system_sector_of
system_sector_of-finds v at n long points near inside before label =
    if_off (leb v.sector_count volume_label_sector) _ _ (ground arith)
    ∙ from_volume_label-finds v (read_sector v (pos volume_label_sector)) at n points near inside
        before label
