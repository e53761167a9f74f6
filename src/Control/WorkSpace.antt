-- ===== src/Control/WorkSpace.antt =====
-- `WorkSpaceHeap` of src/Processors/ControlStorage/GuestHeap.{h,cpp}: a list of free ranges in
-- multiples of 64 bytes. An `int` that the code expects not to be negative is a ℕ; the
-- numbers of a checkpoint are integers.
pub mod Ranges
pub mod Assign
pub mod Checkpoint
use sim.Base.{
  ℕ, zero, suc, ◌+◌, ◌-◌, ◌*◌, ◌/◌, Bool, true, false, not, ◌&&◌, ◌||◌, Option, none, some, List,
  [], ◌∷◌, ltb, leb, ◌==◌, if◌then◌else◌,
}
use sim.Base.Int.{ℤ, pos, negsuc}

pub record Range : Type 0 where
  pub at : ℕ
  pub length : ℕ

pub record WorkSpaceHeap : Type 0 where
  pub capacity : ℕ
  pub free_ranges : List Range

unfoldable pub new_heap : ℕ → WorkSpaceHeap
new_heap bytes = record { capacity = bytes; free_ranges = record { at = 0; length = bytes } ∷ [] }

-- `(bytes + 63) & ~63`.
unfoldable pub round : ℕ → ℕ
round bytes = (bytes + 63) / 64 * 64

-- 2 KB pages that `size` bytes from `start` touch; `size` is not 0.
unfoldable pub pages_spanned : ℕ → ℕ → ℕ
pages_spanned size start = (start + size - 1) / 2048 - start / 2048 + 1

-- Where in a range that is long enough: its start, or the next page if that saves one.
unfoldable pub candidate : ℕ → Range → ℕ
unfolding pages_spanned
candidate size r =
    let page_aligned = (r.at + 2047) / 2048 * 2048 in
    if leb (page_aligned + size) (r.at + r.length)
      && ltb (pages_spanned size page_aligned) (pages_spanned size r.at)
    then page_aligned
    else r.at

-- The place that a search has found: the ranges before and after it.
pub record Found : Type 0 where
  pub before : List Range
  pub range : Range
  pub at : ℕ
  pub after : List Range

unfoldable pub put_before : Range → Option Found → Option Found
put_before r none = none
put_before r (some f) = some (record f { before = r ∷ f.before })

-- Without `fewestPages`: the first range that is long enough, from its start.
unfoldable pub first_fit : ℕ → List Range → Option Found
unfolding put_before
first_fit size [] = none
first_fit size (r ∷ rs) =
    let later = put_before r (first_fit size rs) in
    if ltb r.length size
    then later
    else some (record { before = []; range = r; at = r.at; after = rs })

-- `none` is that nothing was selected before.
unfoldable pub beats : ℕ → Option ℕ → Bool
beats pages none = true
beats pages (some best) = ltb pages best

unfoldable pub or_else : Option Found → Option Found → Option Found
or_else none g = g
or_else (some f) g = some f

-- With `fewestPages`: the first of the ranges that span the fewest pages. `best` is the count to
-- beat, and a count that cannot be beaten ends the search.
unfoldable pub fewest_pages : ℕ → Option ℕ → List Range → Option Found
unfolding put_before candidate pages_spanned beats or_else
fewest_pages size best [] = none
fewest_pages size best (r ∷ rs) =
    let start = candidate size r in
    let pages = pages_spanned size start in
    let here = some (record { before = []; range = r; at = start; after = rs }) in
    let skip = put_before r (fewest_pages size best rs) in
    let better = put_before r (fewest_pages size (some pages) rs) in
    if ltb r.length size
    then skip
    else if not (beats pages best)
    then skip
    else if pages == (size + 2047) / 2048
    then here
    else or_else better here

-- A range of no bytes is not kept.
unfoldable pub keep : Range → List Range → List Range
keep r rs = if ltb 0 r.length then r ∷ rs else rs

unfoldable pub join : List Range → List Range → List Range
join [] rs = rs
join (x ∷ xs) rs = x ∷ join xs rs

-- What is left of the range on both sides.
unfoldable pub carve : ℕ → Found → List Range
unfolding keep join
carve size f = join f.before (
    keep (record { at = f.range.at; length = f.at - f.range.at })
      (keep (record { at = f.at + size; length = f.range.at + f.range.length - (f.at + size) })
        f.after))

-- `none` is -1.
unfoldable pub assign : ℕ → Option Found → WorkSpaceHeap → Option ℕ × WorkSpaceHeap
unfolding carve
assign size none h = (none, h)
assign size (some f) h = (some f.at, record h { free_ranges = carve size f })

unfoldable pub allocate : ℕ → Bool → WorkSpaceHeap → Option ℕ × WorkSpaceHeap
unfolding round assign
allocate bytes few h =
    let size = round bytes in
    let found =
      if few then fewest_pages size none h.free_ranges else first_fit size h.free_ranges in
    if bytes == 0 then (none, h) else assign size found h

-- Before the first range that does not start below it.
unfoldable pub insert_range : Range → List Range → List Range
insert_range r [] = r ∷ []
insert_range r (x ∷ xs) = if ltb x.at r.at then x ∷ insert_range r xs else r ∷ x ∷ xs

-- One pass: a range takes in the ranges that follow it without a gap.
unfoldable pub merge_from : Range → List Range → List Range
merge_from r [] = r ∷ []
merge_from r (x ∷ xs) =
    let joined = merge_from (record { at = r.at; length = r.length + x.length }) xs in
    let apart = merge_from x xs in if r.at + r.length == x.at then joined else r ∷ apart

unfoldable pub merge : List Range → List Range
unfolding merge_from
merge [] = []
merge (r ∷ rs) = merge_from r rs

unfoldable pub free : ℕ → ℕ → WorkSpaceHeap → WorkSpaceHeap
unfolding round insert_range merge
free at bytes h = record h {
  free_ranges = merge (insert_range (record { at = at; length = round bytes }) h.free_ranges);
}

unfoldable pub total_length : List Range → ℕ
total_length [] = 0
total_length (r ∷ rs) = r.length + total_length rs

unfoldable pub available : WorkSpaceHeap → ℕ
unfolding total_length
available h = total_length h.free_ranges

unfoldable pub capture_ranges : List Range → List ℤ
capture_ranges [] = []
capture_ranges (r ∷ rs) = pos r.at ∷ pos r.length ∷ capture_ranges rs

unfoldable pub capture_checkpoint : WorkSpaceHeap → List ℤ
unfolding capture_ranges
capture_checkpoint h = capture_ranges h.free_ranges

unfoldable pub put_range : Range → Option (List Range) → Option (List Range)
put_range r none = none
put_range r (some rs) = some (r ∷ rs)

-- Pairs from the address `end` on, in order and inside the work space; `none` refuses them, and an
-- address or a length that is negative.
unfoldable pub restore_ranges : ℕ → ℕ → List ℤ → Option (List Range)
unfolding put_range
restore_ranges capacity end [] = some []
restore_ranges capacity end (a ∷ []) = none
restore_ranges capacity end (negsuc a ∷ n ∷ v) = none
restore_ranges capacity end (pos a ∷ negsuc n ∷ v) = none
restore_ranges capacity end (pos a ∷ pos n ∷ v) =
    let rest = restore_ranges capacity (a + n) v in
    if ltb a end || ltb capacity a || ltb (capacity - a) n
    then none
    else put_range (record { at = a; length = n }) rest

unfoldable pub adopt : Option (List Range) → WorkSpaceHeap → Bool × WorkSpaceHeap
adopt none h = (false, h)
adopt (some rs) h = (true, record h { free_ranges = rs })

unfoldable pub restore_checkpoint : List ℤ → WorkSpaceHeap → Bool × WorkSpaceHeap
unfolding restore_ranges adopt
restore_checkpoint v h = adopt (restore_ranges h.capacity 0 v) h
