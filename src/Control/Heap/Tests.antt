-- ===== src/Control/Heap/Tests.antt =====
-- The theorems on the system queue space at concrete inputs.
use sim.Base.{ℕ, ◌≡◌, refl, true, false, [], ◌+◌, ◌-◌, ◌≤◌, arith, some}
use sim.Base.Int.{pos, ◌+ℤ◌}
use sim.Machine.Tests.{machine0}
use sim.Control.Heap.FreeLists.{
  empty_lists, enqueue, absorbs, absorb, has_buddy, join_buddies, decompose, class_index,
  class_from, rounded_size, dequeue, edit_class, is_power_of_two, file, chunk_of, insert,
  file_block,
}
use sim.Control.Heap.Sets.{insert_key, erase_key, find, put, erase}
use sim.Control.Heap.Enqueue.{IsApart, IsEnqueued, enqueue-IsEnqueued}
use sim.Control.Heap.Ends.{enqueue_loops_end}
use sim.Control.Heap.Pool.{
  Live, GuestHeap, construct, blank_heap, sort_allocated, insert_live, heap_available,
  heap_capacity, contains,
}
use sim.Control.Heap.Checks.{
  check_invariants, trace_new_failures, report_all, report_invariant, check_free, is_misplaced,
  is_misfiled, check_classes, check_class, check_allocated, check_crossings, check_accounts,
}
use sim.Control.Heap.Requests.{
  allocate, free, is_freeable, take_containing, refuse, allocate_from_lists, search_heap, first_of,
  assign_found, assign_at, carve_element, pass_over,
}
use sim.Control.Heap.Restore.{capture_heap, restore_heap}
use sim.Control.Heap.Sound.{IsSound}
use sim.Control.Heap.Quiet.{check_invariants-IsSound}
use sim.Control.Heap.Allocate.{IsReply, none_assigned, area_assigned, allocate-IsReply}
use sim.Control.Heap.Freed.{IsFreed, free-IsFreed}
use sim.Control.Heap.Start.{IsGeometry, construct-IsSound, empty-IsFiled}
use sim.Control.Heap.Checkpoint.{IsRestored, restore_heap-capture_heap}

-- The pool of the processor: 8192 to 64 KB.
abbrev low0 : ℕ
low0 = 8192

abbrev bytes0 : ℕ
bytes0 = 57344

geometry : IsGeometry low0 bytes0 131072
geometry = record {
  low_enough = omega arith;
  low_aligned = refl;
  bytes_enough = omega arith;
  bytes_aligned = refl;
  one_page = omega arith;
  boundary = refl;
  maximum = omega arith;
  whole = refl;
}

abbrev pool0 : GuestHeap
pool0 = construct low0 bytes0 131072

pool0-IsSound : IsSound pool0
pool0-IsSound = construct-IsSound low0 bytes0 131072 geometry

first_block-IsApart : IsApart 57344 (record { off = 112; size = 57232; lists = empty_lists })
unfolding empty_lists
first_block-IsApart = record { once = λ x. ground arith; reserved = λ x h. ground arith }

enqueue-IsEnqueued_example :
    IsEnqueued
      (record { off = 112; size = 57232; lists = empty_lists })
      (enqueue bytes0 112 57232 empty_lists)
enqueue-IsEnqueued_example =
    enqueue-IsEnqueued 57344 bytes0 112 57232 empty_lists (omega arith) empty-IsFiled
      first_block-IsApart (omega arith) refl refl

enqueue_loops_end_example :
    let (size', f') = absorb 0 112 57232 empty_lists in
    let b = join_buddies 12 bytes0 112 57232 empty_lists in
    (absorbs 112 size' f' ≡ false)
    × (has_buddy bytes0 b.off b.size b.lists ≡ false)
    × (decompose 60000 112 57232 empty_lists ≡ decompose 57232 112 57232 empty_lists)
unfolding empty_lists
enqueue_loops_end_example =
    enqueue_loops_end bytes0 112 57232 60000 empty_lists empty-IsFiled (omega arith) (omega arith)

allocate-IsReply_example :
    let (answer, g, m') = allocate (pos 100) [] pool0 machine0 in IsReply 100 pool0 answer g
allocate-IsReply_example = allocate-IsReply (pos 100) [] pool0 machine0 pool0-IsSound

reply-IsSound :
    (bytes : ℕ) (h : GuestHeap) (answer : ℕ) (g : GuestHeap) → IsReply bytes h answer g → IsSound g
reply-IsSound bytes h _ _ (none_assigned g s same) = s
reply-IsSound bytes h _ _ (area_assigned g at off size s e al en j apart) = s

-- After an allocation of 100 bytes.
abbrev pool1 : GuestHeap
pool1 = (allocate (pos 100) [] pool0 machine0).1

pool1-IsSound : IsSound pool1
pool1-IsSound =
    reply-IsSound 100 pool0 _ pool1 (allocate-IsReply (pos 100) [] pool0 machine0 pool0-IsSound)

check_invariants-IsSound_example : check_invariants pool1 ≡ []
check_invariants-IsSound_example = check_invariants-IsSound pool1 pool1-IsSound

-- The area of that allocation.
abbrev area0 : Live
area0 = record { off = 57200; length = 128; requested = 100; allocation = 1; owner = [] }

pool0_valid : pool0.valid ≡ true
unfolding construct blank_heap
pool0_valid = refl

pool0_initial : pool0.initial_bytes ≡ pool1.initial_bytes
unfolding construct blank_heap empty_lists allocate refuse class_index class_from rounded_size
    allocate_from_lists search_heap first_of assign_found assign_at carve_element dequeue edit_class
    erase_key erase enqueue absorb absorbs find file is_power_of_two decompose chunk_of insert
    insert_key put has_buddy join_buddies file_block sort_allocated insert_live trace_new_failures
    report_all report_invariant check_invariants check_free is_misplaced is_misfiled check_classes
    check_class check_allocated check_crossings check_accounts heap_available heap_capacity
    is_freeable contains take_containing pass_over ◌+ℤ◌
pool0_initial = refl

pool0_fits : pool1.bytes ≤ pool0.maximum_high - pool0.low
unfolding construct blank_heap empty_lists allocate refuse class_index class_from rounded_size
    allocate_from_lists search_heap first_of assign_found assign_at carve_element dequeue edit_class
    erase_key erase enqueue absorb absorbs find file is_power_of_two decompose chunk_of insert
    insert_key put has_buddy join_buddies file_block sort_allocated insert_live trace_new_failures
    report_all report_invariant check_invariants check_free is_misplaced is_misfiled check_classes
    check_class check_allocated check_crossings check_accounts heap_available heap_capacity
    is_freeable contains take_containing pass_over ◌+ℤ◌
pool0_fits = omega arith

freeable0 : is_freeable 65392 64 pool1 ≡ true
unfolding construct blank_heap empty_lists allocate refuse class_index class_from rounded_size
    allocate_from_lists search_heap first_of assign_found assign_at carve_element dequeue edit_class
    erase_key erase enqueue absorb absorbs find file is_power_of_two decompose chunk_of insert
    insert_key put has_buddy join_buddies file_block sort_allocated insert_live trace_new_failures
    report_all report_invariant check_invariants check_free is_misplaced is_misfiled check_classes
    check_class check_allocated check_crossings check_accounts heap_available heap_capacity
    is_freeable contains take_containing pass_over ◌+ℤ◌
freeable0 = refl

taken0 :
    take_containing (65392 - pool1.low) (65392 - pool1.low + 64) pool1.allocated ≡ some (area0, [])
unfolding construct blank_heap empty_lists allocate refuse class_index class_from rounded_size
    allocate_from_lists search_heap first_of assign_found assign_at carve_element dequeue edit_class
    erase_key erase enqueue absorb absorbs find file is_power_of_two decompose chunk_of insert
    insert_key put has_buddy join_buddies file_block sort_allocated insert_live trace_new_failures
    report_all report_invariant check_invariants check_free is_misplaced is_misfiled check_classes
    check_class check_allocated check_crossings check_accounts heap_available heap_capacity
    is_freeable contains take_containing pass_over ◌+ℤ◌
taken0 = refl

restore_heap-capture_heap_example :
    let (accepted, g) = restore_heap [] (capture_heap pool1) pool0 in
    (accepted ≡ true) × IsRestored pool1 g
restore_heap-capture_heap_example =
    restore_heap-capture_heap [] pool1 pool0 pool1-IsSound pool0_valid pool0_initial pool0_fits

-- The first 64 bytes of the area are given back.
free-IsFreed_example : IsFreed pool1 (free 65392 64 pool1) (65392 - pool1.low) 64
free-IsFreed_example = free-IsFreed 65392 64 pool1 area0 [] pool1-IsSound freeable0 refl taken0
