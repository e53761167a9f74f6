-- ===== src/Control/Heap/Start.antt =====
-- A new pool and a restored one, of src/Processors/ControlStorage/GuestHeap.cpp.
use sim.Base.{
  if-property, ℕ, ◌+◌, ◌-◌, ◌/◌, ◌%◌, ◌≤◌, ◌<◌, ◌≡◌, refl, ap, true, not, ◌&&◌, ◌||◌, ltb, leb,
  ◌==◌, arith,
}
use sim.Control.Heap.Sets.{weigh, find}
use sim.Control.Heap.FreeLists.{Block, empty_lists, enqueue}
use sim.Control.Heap.Ledger.{IsFiled}
use sim.Control.Heap.Enqueue.{IsEnqueued, enqueue-IsEnqueued}
use sim.Control.Heap.Pool.{GuestHeap, blank_heap, construct}
use sim.Control.Heap.Sound.{prefixes, IsPlaced, IsSound, balance-IsApart}

pub empty-IsFiled : IsFiled empty_lists
unfolding empty_lists find
empty-IsFiled = record {
  ascending = tt;
  sizes = λ off size h. absurd (ground arith);
  aligned = λ off size h. absurd (ground arith);
  agree = λ k off. refl;
}

-- The initial segment after its header is free.
seeded-IsEnqueued :
    (h : GuestHeap)
    → IsPlaced h
    → h.extension_pages ≡ 0
    → IsEnqueued
        (record { off = 112; size = h.initial_bytes - 112; lists = empty_lists })
        (enqueue h.initial_bytes 112 (h.initial_bytes - 112) empty_lists)
seeded-IsEnqueued h p none_more =
    let b : Block = record { off = 112; size = h.initial_bytes - 112; lists = empty_lists } in
    let same : h.bytes - 112 ≡ h.initial_bytes - 112 = omega (arith, p.span, none_more) in
    let apart =
      balance-IsApart h b (λ w. 0) p
        (λ w additive.
          unfold empty_lists in
          omega
            (arith, ap (w 112) same, ap (λ n. weigh w (prefixes h.initial_bytes n)) none_more)) in
    enqueue-IsEnqueued (h.initial_bytes % 65536) h.initial_bytes 112 (h.initial_bytes - 112)
      empty_lists (omega arith) empty-IsFiled apart (omega (arith, p.header))
      (omega (arith, p.aligned)) refl

-- What the constructor accepts, with an initial segment that ends on a 64 KB boundary.
pub record IsGeometry (low bytes maximum_high : ℕ) : Type 0 where
  pub low_enough : 8192 ≤ low
  pub low_aligned : low % 16 ≡ 0
  pub bytes_enough : 112 < bytes
  pub bytes_aligned : bytes % 16 ≡ 0
  pub one_page : bytes ≤ 65536
  pub boundary : (low + bytes) % 65536 ≡ 0
  pub maximum : low + bytes ≤ maximum_high
  pub whole : (maximum_high - (low + bytes)) % 65536 ≡ 0

pub construct-IsSound :
    (low bytes maximum_high : ℕ)
    → IsGeometry low bytes maximum_high
    → IsSound (construct low bytes maximum_high)
unfolding construct blank_heap
construct-IsSound low bytes maximum_high g =
    if-property IsSound (ltb low 8192 || not (low % 16 == 0)) _ _
      (λ c. absurd (ground (arith, c, g.low_enough, g.low_aligned)))
      (λ c1.
        if-property IsSound (leb bytes 112 || not (bytes % 16 == 0)) _ _
          (λ c. absurd (ground (arith, c, g.bytes_enough, g.bytes_aligned)))
          (λ c2.
            if-property IsSound
              (not (low % 65536 == 0) && not (low / 65536 == (low + bytes - 1) / 65536)) _ _
              (λ c. absurd (ground (arith, c, g.boundary, g.one_page, g.bytes_enough)))
              (λ c3.
                if-property IsSound
                  (ltb maximum_high (low + bytes)
                    || not ((maximum_high - (low + bytes)) % 65536 == 0))
                  _ _ (λ c. absurd (ground (arith, c, g.maximum, g.whole)))
                  (λ c4.
                    let h : GuestHeap = record blank_heap {
                      low = low;
                      initial_bytes = bytes;
                      bytes = bytes;
                      high = low + bytes;
                      maximum_high = maximum_high;
                      valid = true;
                      lists = enqueue bytes 112 (bytes - 112) empty_lists;
                    } in
                    let placed : IsPlaced h = record {
                      valid = refl;
                      low = g.low_enough;
                      header = g.bytes_enough;
                      initial = g.one_page;
                      boundary = g.boundary;
                      aligned = g.bytes_aligned;
                      span = omega arith;
                      high = refl;
                    } in
                    let q = seeded-IsEnqueued h placed refl in
                    record {
                      placed = placed;
                      filed = q.filed;
                      ordered = tt;
                      balance =
                          λ w additive. unfold empty_lists in omega (arith, q.weight w additive);
                      account = refl;
                    }))))
