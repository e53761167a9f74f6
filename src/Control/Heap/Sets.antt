-- ===== src/Control/Heap/Sets.antt =====
-- `std::set<int>` and `std::map<int, int>` of src/Processors/ControlStorage/GuestHeap.h, kept in
-- ascending order of their keys.
use sim.Base.{
  ℕ, suc, ◌+◌, ◌≤◌, ◌≡◌, refl, Bool, false, not, ◌&&◌, ◌||◌, Option, none, some, List, [], ◌∷◌, ltb,
  ◌==◌, if◌then◌else◌, arith,
}

-- A key and its value.
pub record Extent : Type 0 where
  pub off : ℕ
  pub size : ℕ

abbrev pub member : ℕ → List ℕ → Bool
member k [] = false
member k (x ∷ xs) = (x == k) || member k xs

unfoldable pub insert_key : ℕ → List ℕ → List ℕ
insert_key k [] = k ∷ []
insert_key k (x ∷ xs) =
    let rest = insert_key k xs in
    if ltb x k then x ∷ rest else if x == k then x ∷ xs else k ∷ x ∷ xs

unfoldable pub erase_key : ℕ → List ℕ → List ℕ
erase_key k [] = []
erase_key k (x ∷ xs) = let rest = erase_key k xs in if x == k then rest else x ∷ rest

unfoldable pub find : ℕ → List Extent → Option ℕ
find k [] = none
find k (e ∷ es) = let rest = find k es in if e.off == k then some e.size else rest

-- `map[off] = size`.
unfoldable pub put : ℕ → ℕ → List Extent → List Extent
put off size [] = record { off = off; size = size } ∷ []
put off size (e ∷ es) =
    let rest = put off size es in
    let entry : Extent = record { off = off; size = size } in
    if ltb e.off off then e ∷ rest else if e.off == off then entry ∷ es else entry ∷ e ∷ es

unfoldable pub erase : ℕ → List Extent → List Extent
erase k [] = []
erase k (e ∷ es) = let rest = erase k es in if e.off == k then rest else e ∷ rest

-- The keys ascend, from `low` on.
abbrev pub Ascending : ℕ → List Extent → Type 0
Ascending low [] = Unit {0}
Ascending low (e ∷ es) = (low ≤ e.off) × Ascending (suc e.off) es

-- A weight of extents, added up.
abbrev pub weigh : (ℕ → ℕ → ℕ) → List Extent → ℕ
weigh w [] = 0
weigh w (e ∷ es) = w e.off e.size + weigh w es

pub member-insert_key :
    (k j : ℕ) (xs : List ℕ) → member j (insert_key k xs) ≡ ((k == j) || member j xs)
unfolding insert_key
member-insert_key k j [] = refl
member-insert_key k j (x ∷ xs) = let rest = member-insert_key k j xs in ground (arith, rest)

pub member-erase_key :
    (k j : ℕ) (xs : List ℕ) → member j (erase_key k xs) ≡ (not (k == j) && member j xs)
unfolding erase_key
member-erase_key k j [] = ground arith
member-erase_key k j (x ∷ xs) = let rest = member-erase_key k j xs in ground (arith, rest)

pub find-put :
    (k j n : ℕ) (es : List Extent) → find j (put k n es) ≡ (if k == j then some n else find j es)
unfolding find put
find-put k j n [] = refl
find-put k j n (e ∷ es) = let rest = find-put k j n es in ground (arith, rest)

pub find-erase :
    (k j : ℕ) (es : List Extent) → find j (erase k es) ≡ (if k == j then none else find j es)
unfolding find erase
find-erase k j [] = ground arith
find-erase k j (e ∷ es) = let rest = find-erase k j es in ground (arith, rest)
