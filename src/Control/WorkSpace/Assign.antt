-- ===== src/Control/WorkSpace/Assign.antt =====
-- Allocation and release in a work space: nothing is lost, and the order stays.
use sim.Base.{
  ℕ, ◌+◌, ◌≡◌, refl, Bool, true, false, Option, none, some, List, [], ◌∷◌, ◌==◌, if◌then◌else◌,
  arith,
}
use sim.Control.WorkSpace.{
  Range, WorkSpaceHeap, Found, round, first_fit, fewest_pages, assign, allocate, insert_range,
  merge_from, merge, free, total_length, available,
}
use sim.Control.WorkSpace.Ranges.{
  IsOrdered, IsResult, if-IsResult, first_fit-IsResult, fewest_pages-IsResult, total-cons,
  carve-total, carve-Ordered,
}

-- What an assignment owes: the free bytes go down by what is taken, and the ranges stay in order.
abbrev pub Assigned : ℕ → WorkSpaceHeap → Option ℕ × WorkSpaceHeap → Type 0
Assigned size h (none, h') = h' ≡ h
Assigned size h (some at, h') =
    (available h' + size ≡ available h) × (h'.capacity ≡ h.capacity) × IsOrdered h'

assign-Assigned :
    (size : ℕ) (o : Option Found) (h : WorkSpaceHeap)
    → IsOrdered h
    → IsResult size h.free_ranges o
    → Assigned size h (assign size o h)
unfolding assign available IsResult
assign-Assigned size none h o p = refl
assign-Assigned size (some f) h o p =
    (carve-total size h.free_ranges f p, refl, carve-Ordered h.capacity size h.free_ranges f p o)

search-IsResult :
    (size : ℕ) (few : Bool) (rs : List Range)
    → IsResult size rs (if few then fewest_pages size none rs else first_fit size rs)
search-IsResult size few rs =
    if-IsResult size rs few _ _ (λ e. fewest_pages-IsResult size none rs)
      (λ e. first_fit-IsResult size rs)

refused_lem :
    (b : Bool) (size : ℕ) (h : WorkSpaceHeap) (r : Option ℕ × WorkSpaceHeap)
    → Assigned size h r
    → Assigned size h (if b then (none, h) else r)
refused_lem true size h r a = refl
refused_lem false size h r a = a

-- An allocation of either placement keeps the free ranges in order, apart and inside the work
-- space, and takes exactly the rounded size from them when it succeeds; a refused one changes
-- nothing.
pub allocate-Assigned :
    (bytes : ℕ) (few : Bool) (h : WorkSpaceHeap)
    → IsOrdered h
    → Assigned (round bytes) h (allocate bytes few h)
unfolding allocate
allocate-Assigned bytes few h o =
    let found =
      if few
      then fewest_pages (round bytes) none h.free_ranges
      else first_fit (round bytes) h.free_ranges in
    refused_lem (bytes == 0) (round bytes) h (assign (round bytes) found h)
      (assign-Assigned (round bytes) found h o (search-IsResult (round bytes) few h.free_ranges))

insert_range-total :
    (r : Range) (rs : List Range) → total_length (insert_range r rs) ≡ r.length + total_length rs
unfolding insert_range total_length
insert_range-total r [] = refl
insert_range-total r (x ∷ xs) = ground (
  arith,
  insert_range-total r xs,
  total-cons x (insert_range r xs),
  total-cons r (x ∷ xs),
  total-cons x xs,
)

merge_from-total :
    (r : Range) (rs : List Range) → total_length (merge_from r rs) ≡ r.length + total_length rs
unfolding merge_from total_length
merge_from-total r [] = refl
merge_from-total r (x ∷ xs) = ground (
  arith,
  merge_from-total (record { at = r.at; length = r.length + x.length }) xs,
  merge_from-total x xs,
  total-cons r (merge_from x xs),
)

merge-total : (rs : List Range) → total_length (merge rs) ≡ total_length rs
unfolding merge total_length
merge-total [] = refl
merge-total (r ∷ rs) = merge_from-total r rs

-- Merging adjacent ranges loses nothing: giving a range back makes exactly its rounded size
-- available again.
available-free :
    (at bytes : ℕ) (h : WorkSpaceHeap) → available (free at bytes h) ≡ available h + round bytes
unfolding available free
available-free at bytes h =
    let r : Range = record { at = at; length = round bytes } in
    omega (arith, merge-total (insert_range r h.free_ranges), insert_range-total r h.free_ranges)
