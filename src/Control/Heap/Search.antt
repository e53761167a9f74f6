-- ===== src/Control/Heap/Search.antt =====
-- The search of the free lists, in `allocateFromLists` of
-- src/Processors/ControlStorage/GuestHeap.cpp.
use sim.Base.{
  ℕ, zero, suc, ◌+◌, ◌-◌, ◌%◌, ◌≤◌, ◌<◌, ◌≡◌, refl, sym, ap, ◌∙◌, true, Option, none, some, List,
  [], ◌∷◌, ◌==◌, arith, Bool-cases, inl, inr, Option-cases,
}
use sim.Control.Heap.Sets.{find, member}
use sim.Control.Heap.FreeLists.{FreeLists, class_index, class_bytes, rounded_size, has_size, head}
use sim.Control.Heap.Ledger.{IsFiled}
use sim.Control.Heap.Pool.{GuestHeap}
use sim.Control.Heap.Requests.{first_of, search_heap, assign_found, allocate_from_lists}
use sim.Control.Heap.Sound.{IsSound}
use sim.Control.Heap.Sizes.{rounded_size-fits}
use sim.Control.Heap.Ledger.{class_bytes-lt}
use sim.Control.Heap.Assigned.{IsAssigned, assign_at-IsAssigned}

-- What a search has found: an element of the class is at the offset.
abbrev IsHead : FreeLists → Option (ℕ × ℕ) → Type 0
IsHead f none = Unit {0}
IsHead f (some (k, off)) = find off f.elements ≡ some (class_bytes k)

head-found :
    (k : ℕ) (f : FreeLists) (offs : List ℕ) (later : Option (ℕ × ℕ))
    → IsFiled f
    → ((off : ℕ) → member off offs ≡ true → member off (f.classes k) ≡ true)
    → IsHead f later
    → IsHead f (first_of k (head offs) later)
unfolding first_of
head-found k f [] later filed part i = i
head-found k f (off ∷ offs) later filed part i =
    let there = sym (filed.agree k off) ∙ part off (ground arith) in
    elim (Option-cases (find off f.elements)) [
      | inl gone ↦ absurd (ground (arith, there, ap (has_size (class_bytes k)) gone))
      | inr (n, here) ↦ here ∙ ap some (ground (arith, there, ap (has_size (class_bytes k)) here))
    ]

search_heap-IsHead : (left k : ℕ) (f : FreeLists) → IsFiled f → IsHead f (search_heap left k f)
unfolding search_heap
search_heap-IsHead zero k f filed = tt
search_heap-IsHead (suc left) k f filed =
    head-found k f (f.classes k) (search_heap left (suc k) f) filed (λ off m. m)
      (search_heap-IsHead left (suc k) f filed)

-- The class found is at least the first that is searched.
abbrev IsFrom : ℕ → Option (ℕ × ℕ) → Type 0
IsFrom first none = Unit {0}
IsFrom first (some (k, off)) = first ≤ k

first_of-IsFrom :
    (k : ℕ) (found : Option ℕ) (later : Option (ℕ × ℕ))
    → IsFrom (suc k) later
    → IsFrom k (first_of k found later)
unfolding first_of
first_of-IsFrom k (some off) later i = omega arith
first_of-IsFrom k none none i = tt
first_of-IsFrom k none (some (j, off)) i = omega arith

search_heap-IsFrom : (left k : ℕ) (f : FreeLists) → IsFrom k (search_heap left k f)
unfolding search_heap
search_heap-IsFrom zero k f = tt
search_heap-IsFrom (suc left) k f =
    first_of-IsFrom k (head (f.classes k)) (search_heap left (suc k) f)
      (search_heap-IsFrom left (suc k) f)

-- What an allocation of `size` bytes leaves: nothing is assigned, or an area of that length that
-- begins at a multiple of 16 and is recorded in the journal.
pub data IsAnswer (size : ℕ) (h : GuestHeap) : ℕ → GuestHeap → Type 0 where
  refused : (g : GuestHeap) → IsSound g → g.allocated ≡ h.allocated → IsAnswer size h 0 g
  assigned : (g : GuestHeap) (off : ℕ) → IsAssigned h g off size → IsAnswer size h (h.low + off) g

class_bytes_le : (j k : ℕ) → j ≤ k → class_bytes j ≤ class_bytes k
class_bytes_le j k h = elim (Bool-cases (j == k)) [
  | inl e ↦ (let same : j ≡ k = ground (arith, e) in omega (arith, ap class_bytes same))
  | inr e ↦ omega (arith, class_bytes-lt j k (ground (arith, e)))
]

assign_found-IsAnswer :
    (bytes : ℕ) (owner : List ℕ) (size first : ℕ) (found : Option (ℕ × ℕ)) (h : GuestHeap)
    → IsSound h
    → IsHead h.lists found
    → IsFrom first found
    → 0 < size
    → size % 16 ≡ 0
    → size ≤ class_bytes first
    → let (answer, g) = assign_found bytes owner size found h in IsAnswer size h answer g
unfolding assign_found
assign_found-IsAnswer bytes owner size first none h s here from positive whole fits =
    refused h s refl
assign_found-IsAnswer bytes owner size first (some (k, off)) h s here from positive whole fits =
    assigned _ off (
      assign_at-IsAssigned bytes owner k off size h s here positive whole
        (omega (arith, class_bytes_le first k from, fits)))

pub search-IsAnswer :
    (bytes : ℕ) (owner : List ℕ) (h : GuestHeap)
    → IsSound h
    → 0 < bytes
    → class_index bytes < 12
    → let (answer, g) =
        allocate_from_lists bytes owner (class_index bytes) (rounded_size bytes) h in
      IsAnswer (rounded_size bytes) h answer g
unfolding allocate_from_lists
search-IsAnswer bytes owner h s positive small =
    let first = class_index bytes in
    let (enough, fits, whole) = rounded_size-fits bytes positive small in
    assign_found-IsAnswer bytes owner (rounded_size bytes) first
      (search_heap (12 - first) first h.lists) h s
      (search_heap-IsHead (12 - first) first h.lists s.filed)
      (search_heap-IsFrom (12 - first) first h.lists) (omega arith) whole fits
