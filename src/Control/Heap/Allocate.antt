-- ===== src/Control/Heap/Allocate.antt =====
-- `allocate` of src/Processors/ControlStorage/GuestHeap.cpp keeps the pool sound and assigns free
-- bytes.
use sim.Base.Int.{ℤ, pos, negsuc, pos_part}
use sim.Base.{
  if-property, ℕ, suc, ◌+◌, ◌-◌, ◌%◌, ◌≤◌, ◌<◌, ◌≡◌, refl, ap, ◌∙◌, not, ◌||◌, List, leb, ◌==◌,
  arith,
}
use sim.Machine.State.{Machine}
use sim.Control.Heap.Sets.{weigh}
use sim.Control.Heap.FreeLists.{class_index, rounded_size}
use sim.Control.Heap.Ledger.{in_extent}
use sim.Control.Heap.Pool.{no_refusal, too_large, exhausted, GuestHeap, live_extents}
use sim.Control.Heap.Requests.{
  allocate_from_lists, can_extend, extend_heap, refuse, retry, allocate,
}
use sim.Control.Heap.Sound.{IsSound}
use sim.Control.Heap.Sizes.{rounded_size-fits}
use sim.Control.Heap.Search.{IsAnswer, refused, assigned, search-IsAnswer}
use sim.Control.Heap.QuietFree.{inside}
use sim.Control.Heap.Extended.{IsSound-noted, refuse-IsSound, extend_heap-IsSound}

-- What an allocation leaves: a sound pool that nothing was assigned in, or a sound pool and the
-- address of an area that holds the request, begins at a multiple of 16, is recorded in the journal
-- and lies in the pool apart from every earlier allocation.
pub data IsReply (bytes : ℕ) (h : GuestHeap) : ℕ → GuestHeap → Type 0 where
  none_assigned : (g : GuestHeap) → IsSound g → g.allocated ≡ h.allocated → IsReply bytes h 0 g
  area_assigned :
      (g : GuestHeap) (at off size : ℕ)
      → IsSound g
      → at ≡ h.low + off
      → at % 16 ≡ 0
      → bytes ≤ size
      → ((w : ℕ → ℕ → ℕ)
          → weigh w (live_extents g.allocated) ≡ weigh w (live_extents h.allocated) + w off size)
      → ((x : ℕ)
          → in_extent x off size + weigh (in_extent x) (live_extents h.allocated)
            ≤ in_extent x 112 (g.bytes - 112))
      → IsReply bytes h at g

answer-IsReply :
    (bytes size : ℕ) (h k : GuestHeap) (answer : ℕ) (g : GuestHeap)
    → IsSound k
    → k.low ≡ h.low
    → k.allocated ≡ h.allocated
    → bytes ≤ size
    → IsAnswer size k answer g
    → IsReply bytes h answer g
answer-IsReply bytes size h k _ _ sound low journal enough (refused g s same) =
    none_assigned g s (same ∙ journal)
answer-IsReply bytes size h k _ _ sound low journal enough (assigned g off a) =
    let p = sound.placed in
    let recorded : (w : ℕ → ℕ → ℕ)
        → weigh w (live_extents g.allocated) ≡ weigh w (live_extents h.allocated) + w off size =
      λ w. omega (arith, a.journal w, ap (λ es. weigh w (live_extents es)) journal) in
    area_assigned g (k.low + off) off size a.sound (ap (λ l. l + off) low)
      (omega (arith, a.aligned, p.boundary, p.aligned)) enough recorded
      (λ x. omega (arith, inside g x a.sound, recorded (in_extent x)))

-- An area is not at 0.
IsReply-refused :
    (bytes : ℕ) (h : GuestHeap) (answer : ℕ) (g : GuestHeap)
    → 8192 ≤ h.low
    → answer ≡ 0
    → IsReply bytes h answer g
    → IsReply bytes h 0 (refuse exhausted g)
IsReply-refused bytes h _ _ low zero_answer (none_assigned g s same) =
    none_assigned _ (refuse-IsSound exhausted g s) (unfold refuse in same)
IsReply-refused bytes h at _ low zero_answer (area_assigned g at' off size s e al en j ap) =
    absurd (omega (arith, e))

retry-IsReply :
    (bytes : ℕ) (owner : List ℕ) (h k : GuestHeap) (m : Machine)
    → IsSound k
    → k.low ≡ h.low
    → k.allocated ≡ h.allocated
    → 0 < bytes
    → class_index bytes < 12
    → let (answer, g, m') = retry bytes owner (class_index bytes) (rounded_size bytes) k m in
      IsReply bytes h answer g
unfolding retry
retry-IsReply bytes owner h k m s low journal positive small =
    let P = λ (r : ℕ × GuestHeap × Machine). IsReply bytes h r.0 r.1 in
    let size = rounded_size bytes in
    let extended = extend_heap-IsSound k s in
    let a = search-IsAnswer bytes owner (extend_heap k) extended positive small in
    let reply =
      answer-IsReply bytes size h (extend_heap k) _ _ extended (unfold extend_heap in low)
        (unfold extend_heap in journal) (rounded_size-fits bytes positive small).0 a in
    if-property P (not (can_extend k)) _ _
      (λ c. none_assigned _ (refuse-IsSound exhausted k s) (unfold refuse in journal))
      (λ c.
        if-property P
          ((allocate_from_lists bytes owner (class_index bytes) size (extend_heap k)).0 == 0) _ _
          (λ zero_answer.
            IsReply-refused bytes h _ _ (omega (arith, low, s.placed.low))
              (ground (arith, zero_answer)) reply)
          (λ other. reply))

-- `allocate` on a sound pool, whatever is asked: the pool stays sound, and the answer is 0 with the
-- journal as before, or the address of a new area of at least the requested length, at a multiple
-- of 16 bytes, in the pool, and apart from its header and every earlier allocation.
pub allocate-IsReply :
    (bytes : ℤ) (owner : List ℕ) (h : GuestHeap) (m : Machine)
    → IsSound h
    → let (answer, g, m') = allocate bytes owner h m in IsReply (pos_part bytes) h answer g
unfolding allocate
allocate-IsReply (negsuc below) owner h m s =
    let count = suc h.operation_sequence in
    none_assigned (refuse no_refusal (record h { operation_sequence = count }))
      (unfold refuse in IsSound-noted h no_refusal count h.invariant_failures s)
      (unfold refuse in refl)
allocate-IsReply (pos bytes) owner h m s =
    let P = λ (r : ℕ × GuestHeap × Machine). IsReply bytes h r.0 r.1 in
    let first = class_index bytes in
    let size = rounded_size bytes in
    let count = suc h.operation_sequence in
    let started = refuse no_refusal (record h { operation_sequence = count }) in
    let sound : IsSound started =
      unfold refuse in IsSound-noted h no_refusal count h.invariant_failures s in
    let low : started.low ≡ h.low = unfold refuse in refl in
    let journal : started.allocated ≡ h.allocated = unfold refuse in refl in
    if-property P (not h.valid || bytes == 0) _ _ (λ c. none_assigned started sound journal)
      (λ c.
        let positive : 0 < bytes = ground (arith, c) in
        if-property P (leb 12 first) _ _
          (λ d. none_assigned _ (refuse-IsSound too_large started sound) (unfold refuse in refl))
          (λ d.
            let small : first < 12 = ground (arith, d) in
            if-property P ((allocate_from_lists bytes owner first size started).0 == 0) _ _
              (λ e. retry-IsReply bytes owner h started m sound low journal positive small)
              (λ e.
                answer-IsReply bytes size h started _ _ sound low journal
                  (rounded_size-fits bytes positive small).0
                  (search-IsAnswer bytes owner started sound positive small))))
