-- ===== src/Control/Heap/Checks.antt =====
-- `checkInvariants` and the reports of src/Processors/ControlStorage/GuestHeap.cpp. The number of a
-- message is its place in the source; 10 is the report of `free`.
use sim.Base.{
  ℕ, zero, suc, ◌+◌, ◌%◌, Bool, true, false, not, ◌&&◌, ◌||◌, List, [], ◌∷◌, ◌++◌, ltb, leb, ◌==◌,
  if◌then◌else◌, length, drop,
}
use sim.Base.Int.{ℤ, pos, negsuc}
use sim.Control.Heap.Sets.{Extent, member, find, weigh}
use sim.Control.Heap.FreeLists.{FreeLists, class_index, class_bytes, is_power_of_two, has_size}
use sim.Control.Heap.Pool.{
  Live, GuestHeap, heap_capacity, heap_available, live_extents, sort_allocated,
}

abbrev pub note : Bool → List ℕ → List (List ℕ)
note true failure = failure ∷ []
note false failure = []

abbrev pub larger : ℕ → ℕ → ℕ
larger a b = if ltb a b then b else a

unfoldable pub is_misplaced : ℕ → ℕ → ℕ → Bool
is_misplaced bytes off size =
    ltb off 112
    || (size == 0 || (ltb bytes (off + size) || (not (off % 16 == 0) || not (size % 16 == 0))))

unfoldable pub is_misfiled : FreeLists → ℕ → ℕ → Bool
is_misfiled f off size =
    let k = class_index size in
    not (is_power_of_two size)
    || (leb 12 k || (not (class_bytes k == size) || not (member off (f.classes k))))

unfoldable pub check_free : GuestHeap → ℕ → List Extent → List (List ℕ)
check_free h previous [] = []
check_free h previous (e ∷ es) =
    note (is_misplaced h.bytes e.off e.size) (0 ∷ (h.low + e.off) ∷ e.size ∷ [])
    ++ (note (ltb e.off previous) (1 ∷ (h.low + e.off) ∷ e.size ∷ (h.low + previous) ∷ [])
        ++ (note (is_misfiled h.lists e.off e.size) (2 ∷ (h.low + e.off) ∷ e.size ∷ [])
            ++ check_free h (larger previous (e.off + e.size)) es))

unfoldable pub check_class : GuestHeap → ℕ → List ℕ → List (List ℕ)
check_class h k [] = []
check_class h k (off ∷ offs) =
    note (not (has_size (class_bytes k) (find off h.lists.elements)))
      (3 ∷ class_bytes k ∷ (h.low + off) ∷ [])
    ++ check_class h k offs

-- The classes below `k`, the smallest first.
unfoldable pub check_classes : GuestHeap → ℕ → List (List ℕ)
check_classes h zero = []
check_classes h (suc k) = check_classes h k ++ check_class h k (h.lists.classes k)

unfoldable pub check_allocated : GuestHeap → ℕ → List Live → List (List ℕ)
check_allocated h previous [] = []
check_allocated h previous (e ∷ es) =
    note (ltb e.off 112 || (e.length == 0 || ltb h.bytes (e.off + e.length)))
      (4 ∷ e.allocation ∷ (h.low + e.off) ∷ e.length ∷ [])
    ++ (note (ltb e.off previous)
          (5 ∷ e.allocation ∷ (h.low + e.off) ∷ e.length ∷ (h.low + previous) ∷ [])
        ++ check_allocated h (larger previous (e.off + e.length)) es)

-- Both lists in order, the one whose extent ends first goes on.
unfoldable pub check_crossings : GuestHeap → List Extent → List Live → List (List ℕ)
check_crossings h [] lives = []
check_crossings h (f ∷ fs) [] = []
check_crossings h (f ∷ fs) (a ∷ lives) =
    let next_free = check_crossings h fs (a ∷ lives) in
    let next_live = check_crossings h (f ∷ fs) lives in
    note (ltb f.off (a.off + a.length) && ltb a.off (f.off + f.size))
      (6 ∷ (h.low + f.off) ∷ f.size ∷ a.allocation ∷ (h.low + a.off) ∷ a.length ∷ [])
    ++ (if leb (f.off + f.size) (a.off + a.length) then next_free else next_live)

abbrev pub is_int : ℕ → ℤ → Bool
is_int n (pos m) = n == m
is_int n (negsuc m) = false

unfoldable pub check_accounts : GuestHeap → List (List ℕ)
check_accounts h =
    let free_bytes = weigh (λ o s. s) h.lists.elements in
    let allocated_bytes = weigh (λ o s. s) (live_extents h.allocated) in
    note (not (free_bytes == heap_available h)) (7 ∷ free_bytes ∷ heap_available h ∷ [])
    ++ (note (not (is_int allocated_bytes h.used)) (8 ∷ allocated_bytes ∷ [])
        ++ note (not (free_bytes + allocated_bytes == heap_capacity h))
            (9 ∷ (free_bytes + allocated_bytes) ∷ heap_capacity h ∷ []))

unfoldable pub check_invariants : GuestHeap → List (List ℕ)
check_invariants h =
    let allocated = sort_allocated h.allocated in
    check_free h 112 h.lists.elements
    ++ (check_classes h 12
        ++ (check_allocated h 112 allocated
            ++ (check_crossings h h.lists.elements allocated ++ check_accounts h)))

unfoldable pub same_numbers : List ℕ → List ℕ → Bool
same_numbers [] [] = true
same_numbers [] (y ∷ ys) = false
same_numbers (x ∷ xs) [] = false
same_numbers (x ∷ xs) (y ∷ ys) = x == y && same_numbers xs ys

unfoldable pub is_reported : List ℕ → List (List ℕ) → Bool
is_reported text [] = false
is_reported text (t ∷ ts) = same_numbers t text || is_reported text ts

-- The last 64 reports are kept, each once.
unfoldable pub report_invariant : ℕ → List ℕ → GuestHeap → GuestHeap
report_invariant operation failure h =
    let text = operation ∷ failure in
    let reports = h.invariant_failures in
    if is_reported text reports then h else record h {
      invariant_failures = (if length reports == 64 then drop 1 reports else reports) ++ text ∷ [];
    }

unfoldable pub report_all : ℕ → List ℕ → List (List ℕ) → GuestHeap → GuestHeap
report_all operation action [] h = h
report_all operation action (failure ∷ failures) h =
    report_all operation action failures (report_invariant operation (action ++ failure) h)

-- `action` is printed before each failure.
unfoldable pub trace_new_failures : ℕ → List ℕ → GuestHeap → GuestHeap
trace_new_failures operation action h = report_all operation action (check_invariants h) h
