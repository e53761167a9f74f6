-- ===== src/Control/Heap/Restore.antt =====
-- The checkpoints of src/Processors/ControlStorage/GuestHeap.cpp, and the journal that is rebuilt
-- from the free lists.
use sim.Base.{
  ℕ, zero, suc, ◌+◌, ◌-◌, ◌*◌, ◌/◌, ◌%◌, Bool, true, false, not, ◌&&◌, Option, none, some, List, [],
  ◌∷◌, ◌++◌, ltb, leb, ◌==◌, if◌then◌else◌, length,
}
use sim.Base.Int.{ℤ, pos, pos_part}
use sim.Control.Heap.Sets.{Extent}
use sim.Control.Heap.FreeLists.{FreeLists, empty_lists, enqueue}
use sim.Control.Heap.Pool.{Live, GuestHeap, sort_allocated}
use sim.Control.Heap.Checks.{check_invariants, report_all, is_int}
use sim.Control.Heap.Requests.{take_containing, parts_left}

unfoldable pub capture_elements : List Extent → List ℤ
capture_elements [] = []
capture_elements (e ∷ es) = pos e.off ∷ pos e.size ∷ capture_elements es

-- "SQS2".
abbrev pub checkpoint_mark : ℕ
checkpoint_mark = 0x53515332

unfoldable pub capture_heap : GuestHeap → List ℤ
capture_heap h =
    h.used ∷ h.peak ∷ pos h.bytes ∷ pos checkpoint_mark ∷ capture_elements h.lists.elements

-- Extents that no free element covers, from `cursor` to the end of the pool.
unfoldable pub opaque_gaps :
    (bytes cursor allocation : ℕ) (owner : List ℕ) → List Extent → List Live
opaque_gaps bytes cursor allocation owner [] =
    if ltb cursor bytes
    then record {
      off = cursor;
      length = bytes - cursor;
      requested = bytes - cursor;
      allocation = suc allocation;
      owner = owner;
    }
      ∷ []
    else []
opaque_gaps bytes cursor allocation owner (e ∷ es) =
    let end = if ltb cursor (e.off + e.size) then e.off + e.size else cursor in
    let gap : Live = record {
      off = cursor;
      length = e.off - cursor;
      requested = e.off - cursor;
      allocation = suc allocation;
      owner = owner;
    } in
    let after_gap = opaque_gaps bytes end (suc allocation) owner es in
    let joined = opaque_gaps bytes end allocation owner es in
    if ltb cursor e.off then gap ∷ after_gap else joined

unfoldable pub drop_parts : ℕ → ℕ → Option (Live × List Live) → List Live → List Live
drop_parts off end none journal = journal
drop_parts off end (some (e, rest)) journal = sort_allocated (rest ++ parts_left off end e)

unfoldable pub subtract_opaque_range : (off length : ℕ) → List Live → List Live
subtract_opaque_range off length journal =
    drop_parts off (off + length) (take_containing off (off + length) journal) journal

-- The first 16 bytes of the first so many segments beyond the initial one.
unfoldable pub subtract_pages : (initial pages : ℕ) → List Live → List Live
subtract_pages initial zero journal = journal
subtract_pages initial (suc page) journal =
    subtract_opaque_range (initial + page * 65536) 16 (subtract_pages initial page journal)

unfoldable pub rebuild_opaque_ownership : (owner : List ℕ) → GuestHeap → GuestHeap
rebuild_opaque_ownership owner h =
    let gaps = opaque_gaps h.bytes 112 h.allocation_sequence owner h.lists.elements in
    let rebuilt = record h {
      allocated = subtract_pages h.initial_bytes h.extension_pages gaps;
      allocation_sequence = h.allocation_sequence + length gaps;
    } in
    report_all h.operation_sequence [] (check_invariants rebuilt) rebuilt

unfoldable pub enqueue_pairs : (bound : ℕ) → List ℤ → FreeLists → FreeLists
enqueue_pairs bound [] f = f
enqueue_pairs bound (a ∷ []) f = f
enqueue_pairs bound (a ∷ n ∷ v) f =
    enqueue_pairs bound v (enqueue bound (pos_part a) (pos_part n) f)

abbrev pub is_even : ℕ → Bool
is_even n = n % 2 == 0

-- `bytes` is the restored length of the pool.
unfoldable pub can_restore : (bytes : ℕ) → GuestHeap → Bool
can_restore bytes h =
    leb h.initial_bytes bytes
    && (leb bytes (h.maximum_high - h.low) && (bytes - h.initial_bytes) % 65536 == 0)

unfoldable pub restored :
    (owner : List ℕ) (used peak : ℤ) (bytes : ℕ) (pairs : List ℤ) → GuestHeap → GuestHeap
restored owner used peak bytes pairs h = rebuild_opaque_ownership owner (record h {
  lists = enqueue_pairs bytes pairs empty_lists;
  allocated = [];
  invariant_failures = [];
  operation_sequence = 0;
  allocation_sequence = 0;
  bytes = bytes;
  high = h.low + bytes;
  extension_pages = (bytes - h.initial_bytes) / 65536;
  used = used;
  peak = peak;
})

-- Where the fourth number is the mark, the third is the length of the pool.
abbrev pub restored_bytes : ℕ → List ℤ → ℕ
restored_bytes initial [] = initial
restored_bytes initial (b ∷ []) = initial
restored_bytes initial (b ∷ mark ∷ v) = if is_int checkpoint_mark mark then pos_part b else initial

abbrev pub pairs_of : List ℤ → List ℤ
pairs_of [] = []
pairs_of (b ∷ []) = b ∷ []
pairs_of (b ∷ mark ∷ v) = if is_int checkpoint_mark mark then v else b ∷ mark ∷ v

unfoldable pub restore_heap : (owner : List ℕ) → List ℤ → GuestHeap → Bool × GuestHeap
restore_heap owner [] h = (false, h)
restore_heap owner (used ∷ []) h = (false, h)
restore_heap owner (used ∷ peak ∷ v) h =
    let bytes = restored_bytes h.initial_bytes v in
    if not (h.valid && (is_even (length v) && can_restore bytes h))
    then (false, h)
    else (true, restored owner used peak bytes (pairs_of v) h)
