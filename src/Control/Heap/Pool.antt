-- ===== src/Control/Heap/Pool.antt =====
-- `GuestHeap` of src/Processors/ControlStorage/GuestHeap.{h,cpp}: the pool, its journal of
-- allocations and its check of itself. A text is what is printed in it: `owner` is a list of
-- character codes, and a reported failure is its message's number, then the numbers in it. Offsets
-- and lengths of a checkpoint are taken as 0 where they are negative. Traces are left out.
use sim.Base.{
  ℕ, ◌+◌, ◌-◌, ◌*◌, ◌/◌, ◌%◌, Bool, true, false, not, ◌&&◌, ◌||◌, List, [], ◌∷◌, ltb, leb, ◌==◌,
  if◌then◌else◌,
}
use sim.Base.Int.{ℤ, pos}
use sim.Machine.State.{Machine, in_range}
use sim.Control.Heap.Sets.{Extent, weigh}
use sim.Control.Heap.FreeLists.{FreeLists, empty_lists, enqueue}

pub record Live : Type 0 where
  pub off : ℕ
  pub length : ℕ
  pub requested : ℕ
  pub allocation : ℕ
  pub owner : List ℕ

-- Why the last allocation was refused.
pub data Refusal : Type 0 where
  no_refusal : Refusal
  too_large : Refusal
  exhausted : Refusal

pub record GuestHeap : Type 0 where
  pub valid : Bool
  pub low : ℕ
  pub initial_bytes : ℕ
  pub maximum_high : ℕ
  pub high : ℕ
  pub bytes : ℕ
  pub extension_pages : ℕ
  pub lists : FreeLists
  pub allocated : List Live
  pub invariant_failures : List (List ℕ)
  pub operation_sequence : ℕ
  pub allocation_sequence : ℕ
  pub used : ℤ
  pub peak : ℤ
  pub last_refusal : Refusal

-- Before the constructor's checks.
unfoldable pub blank_heap : GuestHeap
blank_heap = record {
  valid = false;
  low = 0;
  initial_bytes = 0;
  maximum_high = 0;
  high = 0;
  bytes = 0;
  extension_pages = 0;
  lists = empty_lists;
  allocated = [];
  invariant_failures = [];
  operation_sequence = 0;
  allocation_sequence = 0;
  used = pos 0;
  peak = pos 0;
  last_refusal = no_refusal;
}

-- The checks of the constructor in their order; the third leaves `low_` to `high_` set.
unfoldable pub construct : (low bytes maximum_high : ℕ) → GuestHeap
construct low bytes maximum_high =
    let sized = record blank_heap {
      low = low;
      initial_bytes = bytes;
      bytes = bytes;
      high = low + bytes;
    } in
    if ltb low 8192 || not (low % 16 == 0)
    then blank_heap
    else if leb bytes 112 || not (bytes % 16 == 0)
    then blank_heap
    else if not (low % 65536 == 0) && not (low / 65536 == (low + bytes - 1) / 65536)
    then blank_heap
    else if ltb maximum_high (low + bytes) || not ((maximum_high - (low + bytes)) % 65536 == 0)
    then sized
    else record sized {
      maximum_high = maximum_high;
      valid = true;
      lists = enqueue bytes 112 (bytes - 112) empty_lists;
    }

-- `memset` to 0, where it is in range.
unfoldable pub clear_guest : ℕ → ℕ → Machine → Machine
clear_guest at len m =
    if not (in_range m (pos at) len)
    then m
    else record m { storage = λ b. if leb at b && ltb b (at + len) then 0 else m.storage b }

unfoldable pub reset_heap : GuestHeap → Machine → GuestHeap × Machine
reset_heap h m = if not h.valid then (h, m) else (
  record h {
    lists = enqueue h.initial_bytes 112 (h.initial_bytes - 112) empty_lists;
    allocated = [];
    invariant_failures = [];
    operation_sequence = 0;
    allocation_sequence = 0;
    used = pos 0;
    peak = pos 0;
    bytes = h.initial_bytes;
    high = h.low + h.initial_bytes;
    extension_pages = 0;
  },
  clear_guest h.low h.initial_bytes m,
)

unfoldable pub heap_capacity : GuestHeap → ℕ
heap_capacity h = h.bytes - 112 - h.extension_pages * 16

unfoldable pub heap_available : GuestHeap → ℕ
heap_available h = weigh (λ o s. s) h.lists.elements

unfoldable pub contains : GuestHeap → ℕ → Bool
contains h at = leb h.low at && ltb at h.high

-- The extents that the journal records.
abbrev pub live_extents : List Live → List Extent
live_extents [] = []
live_extents (e ∷ es) = record { off = e.off; size = e.length } ∷ live_extents es

unfoldable pub insert_live : Live → List Live → List Live
insert_live e [] = e ∷ []
insert_live e (x ∷ xs) =
    let rest = insert_live e xs in if leb e.off x.off then e ∷ x ∷ xs else x ∷ rest

-- `sortAllocated`.
unfoldable pub sort_allocated : List Live → List Live
sort_allocated [] = []
sort_allocated (e ∷ es) = insert_live e (sort_allocated es)

unfoldable pub live_at : ℕ → ℕ → ℕ → List Live → ℕ
live_at low at bytes [] = 0
live_at low at bytes (e ∷ es) =
    let later = live_at low at bytes es in
    if low + e.off == at && e.length == bytes then e.allocation else later

unfoldable pub live_allocation_at : GuestHeap → ℕ → ℕ → ℕ
live_allocation_at h at bytes = live_at h.low at bytes h.allocated
