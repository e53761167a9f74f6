-- ===== src/Control/Heap/Requests.antt =====
-- `allocate` and `free` of src/Processors/ControlStorage/GuestHeap.cpp, with the growth of the pool.
use sim.Base.{
  ℕ, zero, suc, ◌+◌, ◌-◌, ◌/◌, ◌%◌, Bool, not, ◌&&◌, ◌||◌, Option, none, some, List, [], ◌∷◌, ◌++◌,
  ltb, leb, ◌==◌, if◌then◌else◌,
}
use sim.Base.Int.{ℤ, pos, negsuc, ◌-ℤ◌, ◌+ℤ◌}
use sim.Machine.State.{Machine}
use sim.Control.Heap.Sets.{find}
use sim.Control.Heap.FreeLists.{
  FreeLists, class_index, class_bytes, rounded_size, head, dequeue, is_found, enqueue,
}
use sim.Control.Heap.Pool.{
  Live, Refusal, no_refusal, too_large, exhausted, GuestHeap, clear_guest, contains, sort_allocated,
}
use sim.Control.Heap.Checks.{report_invariant, trace_new_failures}

-- The reported actions.
abbrev pub assign_action : List ℕ
assign_action = 0 ∷ []

abbrev pub free_action : List ℕ
free_action = 1 ∷ []

abbrev pub larger_int : ℤ → ℤ → ℤ
larger_int (pos a) (pos b) = pos (if ltb a b then b else a)
larger_int (pos a) (negsuc b) = pos a
larger_int (negsuc a) (pos b) = pos b
larger_int (negsuc a) (negsuc b) = negsuc (if ltb b a then b else a)

-- The free lists without the first `size` bytes of an element of class `k`.
unfoldable pub carve_element : ℕ → ℕ → ℕ → ℕ → FreeLists → FreeLists
carve_element bound k off size f =
    let rest = dequeue k off f in
    if ltb size (class_bytes k)
    then enqueue bound (off + size) (class_bytes k - size) rest
    else rest

-- An element of class `k` at `off` is assigned.
unfoldable pub assign_at : (bytes : ℕ) (owner : List ℕ) (k off size : ℕ) → GuestHeap → GuestHeap
assign_at bytes owner k off size h =
    let used = h.used +ℤ pos size in
    let allocation = suc h.allocation_sequence in
    let live : Live = record {
      off = off;
      length = size;
      requested = bytes;
      allocation = allocation;
      owner = owner;
    } in
    trace_new_failures h.operation_sequence assign_action (record h {
      lists = carve_element h.bytes k off size h.lists;
      used = used;
      peak = larger_int h.peak used;
      allocation_sequence = allocation;
      allocated = sort_allocated (h.allocated ++ live ∷ []);
    })

unfoldable pub first_of : ℕ → Option ℕ → Option (ℕ × ℕ) → Option (ℕ × ℕ)
first_of k none later = later
first_of k (some off) later = some (k, off)

-- The first class that has an element, from `k` on, with so many classes left.
unfoldable pub search_heap : (left k : ℕ) → FreeLists → Option (ℕ × ℕ)
search_heap zero k f = none
search_heap (suc left) k f = first_of k (head (f.classes k)) (search_heap left (suc k) f)

unfoldable pub assign_found :
    (bytes : ℕ) (owner : List ℕ) (size : ℕ) → Option (ℕ × ℕ) → GuestHeap → ℕ × GuestHeap
assign_found bytes owner size none h = (0, h)
assign_found bytes owner size (some (k, off)) h = (h.low + off, assign_at bytes owner k off size h)

unfoldable pub allocate_from_lists :
    (bytes : ℕ) (owner : List ℕ) (first size : ℕ) → GuestHeap → ℕ × GuestHeap
allocate_from_lists bytes owner first size h =
    assign_found bytes owner size (search_heap (12 - first) first h.lists) h

unfoldable pub can_extend : GuestHeap → Bool
can_extend h = leb (h.high + 65536) h.maximum_high

-- A segment more, of which the first 16 bytes are not assigned.
unfoldable pub extend_heap : GuestHeap → GuestHeap
extend_heap h = record h {
  bytes = h.bytes + 65536;
  high = h.high + 65536;
  extension_pages = suc h.extension_pages;
  lists = enqueue (h.bytes + 65536) (h.bytes + 16) (65536 - 16) h.lists;
}

unfoldable pub refuse : Refusal → GuestHeap → GuestHeap
refuse why h = record h { last_refusal = why }

-- The second search, after the pool has grown if it can.
unfoldable pub retry :
    (bytes : ℕ) (owner : List ℕ) (first size : ℕ) → GuestHeap → Machine → ℕ × GuestHeap × Machine
retry bytes owner first size h m =
    let (answer, h') = allocate_from_lists bytes owner first size (extend_heap h) in
    let m' = clear_guest h.high 65536 m in
    if not (can_extend h)
    then (0, refuse exhausted h, m)
    else if answer == 0
    then (0, refuse exhausted h', m')
    else (answer, h', m')

-- The answer is an address in guest storage, or 0.
unfoldable pub allocate :
    (bytes : ℤ) (owner : List ℕ) → GuestHeap → Machine → ℕ × GuestHeap × Machine
allocate (negsuc below) owner h m =
    (0, refuse no_refusal (record h { operation_sequence = suc h.operation_sequence }), m)
allocate (pos bytes) owner h m =
    let started = refuse no_refusal (record h { operation_sequence = suc h.operation_sequence }) in
    let first = class_index bytes in
    let size = rounded_size bytes in
    let (answer, h') = allocate_from_lists bytes owner first size started in
    if not h.valid || bytes == 0
    then (0, started, m)
    else if leb 12 first
    then (0, refuse too_large started, m)
    else if answer == 0
    then retry bytes owner first size started m
    else (answer, h', m)

unfoldable pub pass_over : Live → Option (Live × List Live) → Option (Live × List Live)
pass_over e none = none
pass_over e (some (x, xs)) = some (x, e ∷ xs)

-- The first allocation that contains the area, and the journal without it.
unfoldable pub take_containing : (off end : ℕ) → List Live → Option (Live × List Live)
take_containing off end [] = none
take_containing off end (e ∷ es) =
    let later = pass_over e (take_containing off end es) in
    if leb e.off off && leb end (e.off + e.length) then some (e, es) else later

-- What is left of an allocation below and above the area.
unfoldable pub parts_left : (off end : ℕ) → Live → List Live
parts_left off end e =
    let above =
      if ltb end (e.off + e.length)
      then record e { off = end; length = e.off + e.length - end } ∷ []
      else [] in
    if ltb e.off off then record e { length = off - e.off } ∷ above else above

-- The allocations that the area meets, in the text of a report.
unfoldable pub meeting : (low off end : ℕ) → List Live → List ℕ
meeting low off end [] = []
meeting low off end (e ∷ es) =
    let later = meeting low off end es in
    if ltb off (e.off + e.length) && ltb e.off end
    then e.allocation ∷ (low + e.off) ∷ e.length ∷ later
    else later

unfoldable pub disown : (at off size : ℕ) → Option (Live × List Live) → GuestHeap → GuestHeap
disown at off size none h =
    report_invariant h.operation_sequence
      (10 ∷ at ∷ size ∷ meeting h.low off (off + size) h.allocated) h
disown at off size (some (e, rest)) h = record h {
  allocated = sort_allocated (rest ++ parts_left off (off + size) e);
}

-- The end of `free`: the area goes to the free lists, whoever has it.
unfoldable pub give_back : (off size : ℕ) → GuestHeap → GuestHeap
give_back off size h =
    trace_new_failures h.operation_sequence free_action
      (record h { used = h.used -ℤ pos size; lists = enqueue h.bytes off size h.lists })

-- The checks of `free`, in their order.
unfoldable pub is_freeable : (at size : ℕ) → GuestHeap → Bool
is_freeable at size h =
    h.valid
    && (not (size == 0)
        && (at % 16 == 0
            && (not (ltb at 8192)
                && (not (at % 65536 == 0)
                    && (at / 65536 == (at + size - 1) / 65536
                        && (contains h at
                            && (leb (at + size) h.high
                                && not (is_found (find (at - h.low) h.lists.elements)))))))))

unfoldable pub free : (at bytes : ℕ) → GuestHeap → GuestHeap
free at bytes h =
    let started = record h { operation_sequence = suc h.operation_sequence } in
    let off = at - h.low in
    let owned = take_containing off (off + bytes) h.allocated in
    if is_freeable at bytes h
    then give_back off bytes (disown at off bytes owned started)
    else started
