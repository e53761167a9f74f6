-- ===== src/Control/WorkSpace/Checkpoint.antt =====
-- Checkpoints of a work space.
use sim.Base.{
  ℕ, ◌+◌, ◌-◌, ◌≤◌, ◌≡◌, refl, ap, ◌∙◌, Bool, true, false, ◌||◌, Option, none, some, List, [], ◌∷◌,
  ltb, if◌then◌else◌, arith,
}
use sim.Base.Int.{ℤ, pos, negsuc}
use sim.Control.WorkSpace.{
  Range, WorkSpaceHeap, capture_ranges, capture_checkpoint, put_range, restore_ranges, adopt,
  restore_checkpoint,
}
use sim.Control.WorkSpace.Ranges.{Ordered, IsOrdered}

restore-capture :
    (capacity low : ℕ) (rs : List Range)
    → Ordered capacity low rs
    → restore_ranges capacity low (capture_ranges rs) ≡ some rs
unfolding restore_ranges capture_ranges
restore-capture capacity low [] o = refl
restore-capture capacity low (r ∷ rs) (l, u, o) =
    let rest = restore-capture capacity (r.at + r.length) rs o in rw rest (ground arith)

-- The checkpoint of a work space in order is accepted, and restores exactly its free ranges.
restore_checkpoint-capture_checkpoint :
    (h h' : WorkSpaceHeap)
    → IsOrdered h
    → h'.capacity ≡ h.capacity
    → restore_checkpoint (capture_checkpoint h) h' ≡ (true, h)
unfolding restore_checkpoint capture_checkpoint adopt
restore_checkpoint-capture_checkpoint h h' o same =
    let rs = h.free_ranges in
    ap (λ c. adopt (restore_ranges c 0 (capture_ranges rs)) h') same
    ∙ ap (λ r. adopt r h') (restore-capture h.capacity 0 rs o)
    ∙ ap (λ c. (true, record h { capacity = c })) same

-- Ranges that a restore would take are in order.
OrderedIf : ℕ → ℕ → Option (List Range) → Type 0
OrderedIf capacity low none = Unit {0}
OrderedIf capacity low (some rs) = Ordered capacity low rs

put_range-OrderedIf :
    (capacity low : ℕ) (r : Range) (o : Option (List Range))
    → low ≤ r.at
    → r.at + r.length ≤ capacity
    → OrderedIf capacity (r.at + r.length) o
    → OrderedIf capacity low (put_range r o)
unfolding put_range OrderedIf
put_range-OrderedIf capacity low r none h k o = o
put_range-OrderedIf capacity low r (some rs) h k o = (h, k, o)

unless_refused :
    (capacity low : ℕ) (b : Bool) (o : Option (List Range))
    → (b ≡ false → OrderedIf capacity low o)
    → OrderedIf capacity low (if b then none else o)
unless_refused capacity low true o h = unfold OrderedIf in tt
unless_refused capacity low false o h = h refl

restore_ranges-OrderedIf :
    (capacity low : ℕ) (v : List ℤ) → OrderedIf capacity low (restore_ranges capacity low v)
unfolding restore_ranges
restore_ranges-OrderedIf capacity low [] = unfold OrderedIf in tt
restore_ranges-OrderedIf capacity low (a ∷ []) = unfold OrderedIf in tt
restore_ranges-OrderedIf capacity low (negsuc a ∷ n ∷ v) = unfold OrderedIf in tt
restore_ranges-OrderedIf capacity low (pos a ∷ negsuc n ∷ v) = unfold OrderedIf in tt
restore_ranges-OrderedIf capacity low (pos a ∷ pos n ∷ v) =
    let r : Range = record { at = a; length = n } in
    let rest = restore_ranges-OrderedIf capacity (a + n) v in
    unless_refused capacity low (ltb a low || ltb capacity a || ltb (capacity - a) n) _ (λ ok.
      put_range-OrderedIf capacity low r (restore_ranges capacity (a + n) v) (ground arith)
        (ground arith) rest)

adopt-IsOrdered :
    (h : WorkSpaceHeap) (o : Option (List Range))
    → IsOrdered h
    → OrderedIf h.capacity 0 o
    → IsOrdered (adopt o h).1
unfolding adopt OrderedIf
adopt-IsOrdered h none i k = i
adopt-IsOrdered h (some rs) i k = k

-- Whatever integers a checkpoint holds, restoring it leaves free ranges in order, apart and inside
-- the work space, since a vector of others is refused.
pub restore_checkpoint-IsOrdered :
    (v : List ℤ) (h : WorkSpaceHeap) → IsOrdered h → IsOrdered (restore_checkpoint v h).1
unfolding restore_checkpoint
restore_checkpoint-IsOrdered v h o =
    adopt-IsOrdered h (restore_ranges h.capacity 0 v) o (restore_ranges-OrderedIf h.capacity 0 v)
