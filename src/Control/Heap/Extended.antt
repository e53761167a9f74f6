-- ===== src/Control/Heap/Extended.antt =====
-- Growth of the pool of src/Processors/ControlStorage/GuestHeap.cpp keeps it sound.
use sim.Base.{ℕ, suc, ◌+◌, ◌-◌, ◌%◌, ◌≤◌, ◌≡◌, refl, ap, List, arith}
use sim.Control.Heap.Sets.{weigh}
use sim.Control.Heap.FreeLists.{Block}
use sim.Control.Heap.Ledger.{Additive}
use sim.Control.Heap.Enqueue.{enqueue-IsEnqueued}
use sim.Control.Heap.Pool.{Refusal, GuestHeap, live_extents}
use sim.Control.Heap.Requests.{extend_heap, refuse}
use sim.Control.Heap.Sound.{prefixes, IsPlaced, IsSound, balance-IsApart}

-- The invariant does not read the reports, the count of operations or the last refusal.
pub IsSound-noted :
    (h : GuestHeap) (why : Refusal) (count : ℕ) (failures : List (List ℕ))
    → IsSound h
    → IsSound
        (record h { last_refusal = why; operation_sequence = count; invariant_failures = failures })
IsSound-noted h why count failures s =
    let p = s.placed in
    record {
      placed = record {
        valid = p.valid;
        low = p.low;
        header = p.header;
        initial = p.initial;
        boundary = p.boundary;
        aligned = p.aligned;
        span = p.span;
        high = p.high;
      };
      filed = s.filed;
      ordered = s.ordered;
      balance = s.balance;
      account = s.account;
    }

pub refuse-IsSound : (why : Refusal) (h : GuestHeap) → IsSound h → IsSound (refuse why h)
unfolding refuse
refuse-IsSound why h s = IsSound-noted h why h.operation_sequence h.invariant_failures s

-- The parts of the pool, and of the pool with a segment more.
segment_parts :
    (w : ℕ → ℕ → ℕ) (bytes : ℕ)
    → Additive w
    → 112 ≤ bytes
    → w 112 (bytes + 65536 - 112) ≡ w 112 (bytes - 112) + (w bytes 16 + w (bytes + 16) 65520)
segment_parts w bytes additive h =
    let end : 112 + (bytes - 112) ≡ bytes = omega arith in
    let sum : bytes + 65536 - 112 ≡ bytes - 112 + (16 + 65520) = omega arith in
    omega (
      arith,
      ap (w 112) sum,
      additive 112 (bytes - 112) (16 + 65520),
      ap (λ o. w o (16 + 65520)) end,
      additive bytes 16 65520,
    )

pub extend_heap-IsSound : (h : GuestHeap) → IsSound h → IsSound (extend_heap h)
unfolding extend_heap
extend_heap-IsSound h s =
    let p = s.placed in
    let header : 112 ≤ h.bytes = omega (arith, p.header, p.span) in
    let b : Block = record { off = h.bytes + 16; size = 65520; lists = h.lists } in
    let placed : IsPlaced (extend_heap h) =
      unfold extend_heap in
      record {
        valid = p.valid;
        low = p.low;
        header = p.header;
        initial = p.initial;
        boundary = p.boundary;
        aligned = p.aligned;
        span = omega (arith, p.span);
        high = omega (arith, p.high);
      } in
    let balance : (w : ℕ → ℕ → ℕ)
        → Additive w
        → w b.off b.size
            + weigh w b.lists.elements
            + weigh w (live_extents h.allocated)
            + weigh w (prefixes h.initial_bytes (suc h.extension_pages))
          ≡ w 112 (h.bytes + 65536 - 112) =
      λ w additive. omega (
        arith,
        s.balance w additive,
        segment_parts w h.bytes additive header,
        ap (λ o. w o 16) p.span,
      ) in
    let apart =
      balance-IsApart (extend_heap h) b (λ w. weigh w (live_extents h.allocated)) placed
        (unfold extend_heap in balance) in
    let e =
      enqueue-IsEnqueued (h.initial_bytes % 65536) (h.bytes + 65536) (h.bytes + 16) 65520 h.lists
        (omega arith) s.filed (unfold extend_heap in apart) (omega arith) refl
        (omega (arith, p.aligned, p.span)) in
    record {
      placed = placed;
      filed = e.filed;
      ordered = s.ordered;
      balance = λ w additive. omega (arith, e.weight w additive, balance w additive);
      account = s.account;
    }
