-- ===== src/Control/Heap/Assigned.antt =====
-- An assignment from a free element, in `allocateFromLists` of
-- src/Processors/ControlStorage/GuestHeap.cpp, keeps the pool sound.
use sim.Base.{
  if-property, ℕ, suc, ◌+◌, ◌-◌, ◌%◌, ◌≤◌, ◌<◌, ◌≡◌, sym, ap, subst, ◌∙◌, some, List, [], ◌∷◌, ◌++◌,
  ltb, arith,
}
use sim.Base.Int.{pos, ◌+ℤ◌, add_pos}
use sim.Control.Heap.Sets.{weigh, find}
use sim.Control.Heap.FreeLists.{FreeLists, Block, class_index, class_bytes, dequeue}
use sim.Control.Heap.Ledger.{class_bytes-eq, Additive, IsFiled, weigh-erase, dequeue-IsFiled}
use sim.Control.Heap.Enqueue.{enqueue-IsEnqueued}
use sim.Control.Heap.Moves.{class_bytes-whole}
use sim.Control.Heap.Pool.{Live, GuestHeap, live_extents, sort_allocated}
use sim.Control.Heap.Checks.{report_all, trace_new_failures}
use sim.Control.Heap.Requests.{larger_int, carve_element, assign_at, assign_action}
use sim.Control.Heap.Sound.{
  IsSound, Ordered-Filled, Filled-append, weigh-sort_allocated, weigh-append,
  sort_allocated-Ordered, balance-IsApart,
}
use sim.Control.Heap.Quiet.{check_invariants-IsSound}

-- The pool's reports stay as they are when it is sound.
pub trace-IsSound :
    (operation : ℕ) (action : List ℕ) (h : GuestHeap)
    → IsSound h
    → trace_new_failures operation action h ≡ h
unfolding trace_new_failures report_all
trace-IsSound operation action h s =
    ap (λ failures. report_all operation action failures h) (check_invariants-IsSound h s)

-- The lists after an element has lost its first `size` bytes.
record IsCarved (f g : FreeLists) (off size : ℕ) : Type 0 where
  pub filed : IsFiled g
  pub weight : (w : ℕ → ℕ → ℕ) → Additive w → w off size + weigh w g.elements ≡ weigh w f.elements

carve-IsCarved :
    (h : GuestHeap) (k off size : ℕ)
    → IsSound h
    → find off h.lists.elements ≡ some (class_bytes k)
    → 0 < size
    → size % 16 ≡ 0
    → size ≤ class_bytes k
    → IsCarved h.lists (carve_element h.bytes k off size h.lists) off size
unfolding carve_element
carve-IsCarved h k off size s there positive whole fits =
    let f = h.lists in
    let n = class_bytes k in
    let class = s.filed.sizes off n there in
    let index : class_index n ≡ k = ground (arith, class.exact, class_bytes-eq (class_index n) k) in
    let rest = dequeue k off f in
    let filed =
      subst (λ j. IsFiled (dequeue j off f)) index (dequeue-IsFiled off n f s.filed there) in
    let erased : (w : ℕ → ℕ → ℕ) → weigh w rest.elements + w off n ≡ weigh w f.elements =
      λ w. unfold dequeue in weigh-erase w off n 0 f.elements s.filed.ascending there in
    if-property (λ g. IsCarved f g off size) (ltb size n) _ _
      (λ lt.
        let parts : size + (n - size) ≡ n = omega arith in
        let b : Block = record { off = off + size; size = n - size; lists = rest } in
        let apart =
          balance-IsApart h b (λ w. w off size + weigh w (live_extents h.allocated)) s.placed
            (λ w additive. omega (
              arith,
              s.balance w additive,
              erased w,
              additive off size (n - size),
              ap (w off) parts,
            )) in
        let e =
          enqueue-IsEnqueued (h.initial_bytes % 65536) h.bytes (off + size) (n - size) rest
            (omega arith) filed apart (ground (arith, lt))
            (omega (arith, whole, class_bytes-whole n class))
            (omega (arith, whole, s.filed.aligned off n there)) in
        record {
          filed = e.filed;
          weight = λ w additive. omega (
            arith,
            e.weight w additive,
            erased w,
            additive off size (n - size),
            ap (w off) parts,
          );
        })
      (λ ge.
        let same : n ≡ size = ground (arith, ge, fits) in
        record { filed = filed; weight = λ w additive. omega (arith, erased w, ap (w off) same) })

-- The pool and the bytes of an assignment at `off`.
pub record IsAssigned (h g : GuestHeap) (off size : ℕ) : Type 0 where
  pub sound : IsSound g
  pub low : g.low ≡ h.low
  pub journal :
      (w : ℕ → ℕ → ℕ)
      → weigh w (live_extents g.allocated) ≡ weigh w (live_extents h.allocated) + w off size
  pub weight :
      (w : ℕ → ℕ → ℕ)
      → Additive w
      → w off size + weigh w g.lists.elements ≡ weigh w h.lists.elements
  pub aligned : off % 16 ≡ 0

pub assign_at-IsAssigned :
    (bytes : ℕ) (owner : List ℕ) (k off size : ℕ) (h : GuestHeap)
    → IsSound h
    → find off h.lists.elements ≡ some (class_bytes k)
    → 0 < size
    → size % 16 ≡ 0
    → size ≤ class_bytes k
    → IsAssigned h (assign_at bytes owner k off size h) off size
unfolding assign_at
assign_at-IsAssigned bytes owner k off size h s there positive whole fits =
    let carved = carve-IsCarved h k off size s there positive whole fits in
    let live : Live = record {
      off = off;
      length = size;
      requested = bytes;
      allocation = suc h.allocation_sequence;
      owner = owner;
    } in
    let journal = h.allocated ++ live ∷ [] in
    let g : GuestHeap = record h {
      lists = carve_element h.bytes k off size h.lists;
      used = h.used +ℤ pos size;
      peak = larger_int h.peak (h.used +ℤ pos size);
      allocation_sequence = suc h.allocation_sequence;
      allocated = sort_allocated journal;
    } in
    let live_weight : (w : ℕ → ℕ → ℕ)
        → weigh w (live_extents (sort_allocated journal))
          ≡ weigh w (live_extents h.allocated) + w off size =
      λ w. omega (arith, weigh-sort_allocated w journal, weigh-append w h.allocated (live ∷ [])) in
    let p = s.placed in
    let sound : IsSound g = record {
      placed = record {
        valid = p.valid;
        low = p.low;
        header = p.header;
        initial = p.initial;
        boundary = p.boundary;
        aligned = p.aligned;
        span = p.span;
        high = p.high;
      };
      filed = carved.filed;
      ordered = sort_allocated-Ordered journal (
          Filled-append h.allocated (live ∷ []) (Ordered-Filled 0 h.allocated s.ordered)
            (positive, tt));
      balance = λ w additive.
          omega (arith, s.balance w additive, carved.weight w additive, live_weight w);
      account =
          ap (λ u. u +ℤ pos size) s.account
          ∙ add_pos _ size
          ∙ ap pos (sym (live_weight (λ o n. n)));
    } in
    let same = sym (trace-IsSound h.operation_sequence assign_action g sound) in
    record {
      sound = subst IsSound same sound;
      low = ap (λ (x : GuestHeap). x.low) (sym same);
      journal = λ w.
          ap (λ (x : GuestHeap). weigh w (live_extents x.allocated)) (sym same) ∙ live_weight w;
      weight = λ w additive.
          ap (λ (x : GuestHeap). w off size + weigh w x.lists.elements) (sym same)
          ∙ carved.weight w additive;
      aligned = s.filed.aligned off (class_bytes k) there;
    }
