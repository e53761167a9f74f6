-- ===== src/Control/Heap/Checkpoint.antt =====
-- A pool restored from its checkpoint, in src/Processors/ControlStorage/GuestHeap.cpp.
use sim.Base.{
  if-property, ℕ, suc, ◌+◌, ◌-◌, ◌/◌, ◌%◌, ◌≤◌, ◌<◌, ◌≡◌, refl, sym, ap, subst, ◌∙◌, Bool, true,
  not, ◌&&◌, List, [], ◌∷◌, ◌++◌, arith, All, length,
}
use sim.Control.Heap.Sets.{Extent, weigh}
use sim.Control.Heap.FreeLists.{FreeLists, Block, empty_lists, enqueue}
use sim.Control.Heap.Ledger.{Additive, in_extent, in_extent-Additive, IsFiled}
use sim.Control.Heap.Moves.{class_bytes-whole, Additive-zero}
use sim.Control.Heap.Enqueue.{IsApart, enqueue-IsEnqueued}
use sim.Control.Heap.Pool.{GuestHeap, live_extents}
use sim.Control.Heap.Checks.{is_reported, report_invariant, report_all, check_invariants}
use sim.Control.Heap.Restore.{
  capture_elements, capture_heap, enqueue_pairs, opaque_gaps, subtract_pages, can_restore,
  rebuild_opaque_ownership, restored, restore_heap, is_even,
}
use sim.Control.Heap.Sound.{IsSound, balance-IsApart}
use sim.Control.Heap.QuietFree.{All-find}
use sim.Control.Heap.Start.{empty-IsFiled}

-- An element that can be filed again.
record IsFilable (off size : ℕ) : Type 0 where
  pub positive : 0 < size
  pub whole : size % 16 ≡ 0
  pub aligned : off % 16 ≡ 0

-- Lists and elements to file: no byte twice, and one byte of every 64 KB left out.
record IsRestorable (gap : ℕ) (es : List Extent) (f : FreeLists) : Type 0 where
  pub filed : IsFiled f
  pub once : (x : ℕ) → weigh (in_extent x) es + weigh (in_extent x) f.elements ≤ 1
  pub reserved :
      (x : ℕ) → x % 65536 ≡ gap → weigh (in_extent x) es + weigh (in_extent x) f.elements ≡ 0

record IsRefiled (es : List Extent) (f g : FreeLists) : Type 0 where
  pub filed : IsFiled g
  pub weight : (w : ℕ → ℕ → ℕ) → Additive w → weigh w g.elements ≡ weigh w es + weigh w f.elements

enqueue_pairs-IsRefiled :
    (gap bound : ℕ) (es : List Extent) (f : FreeLists)
    → gap < 65536
    → All (λ (e : Extent). IsFilable e.off e.size) es
    → IsRestorable gap es f
    → IsRefiled es f (enqueue_pairs bound (capture_elements es) f)
unfolding enqueue_pairs capture_elements
enqueue_pairs-IsRefiled gap bound [] f small ok r = record {
  filed = r.filed;
  weight = λ w additive. omega arith;
}
enqueue_pairs-IsRefiled gap bound (e ∷ es) f small (k, ks) r =
    let apart : IsApart gap (record { off = e.off; size = e.size; lists = f }) = record {
      once = λ x. omega (arith, r.once x);
      reserved = λ x h. omega (arith, r.reserved x h);
    } in
    let q =
      enqueue-IsEnqueued gap bound e.off e.size f small r.filed apart k.positive k.whole
        k.aligned in
    let next : IsRestorable gap es (enqueue bound e.off e.size f) = record {
      filed = q.filed;
      once = λ x. omega (arith, r.once x, q.weight (in_extent x) (in_extent-Additive x));
      reserved =
          λ x h. omega (arith, r.reserved x h, q.weight (in_extent x) (in_extent-Additive x));
    } in
    let later = enqueue_pairs-IsRefiled gap bound es (enqueue bound e.off e.size f) small ks next in
    record {
      filed = later.filed;
      weight = λ w additive. omega (arith, later.weight w additive, q.weight w additive);
    }

sound-IsFilable :
    (h : GuestHeap) → IsSound h → All (λ (e : Extent). IsFilable e.off e.size) h.lists.elements
sound-IsFilable h s = All-find IsFilable 0 h.lists.elements s.filed.ascending (λ off size there.
    let (large, whole) = class_bytes-whole size (s.filed.sizes off size there) in
    record { positive = omega arith; whole = whole; aligned = s.filed.aligned off size there })

sound-IsRestorable :
    (h : GuestHeap)
    → IsSound h
    → IsRestorable (h.initial_bytes % 65536) h.lists.elements empty_lists
sound-IsRestorable h s =
    let b : Block = record { off = 0; size = 0; lists = h.lists } in
    let apart =
      balance-IsApart h b (λ w. weigh w (live_extents h.allocated)) s.placed
        (λ w additive. omega (arith, s.balance w additive, Additive-zero w 0 additive)) in
    unfold empty_lists in
    record {
      filed = unfold empty_lists in empty-IsFiled;
      once = λ x. omega (arith, apart.once x);
      reserved = λ x h. omega (arith, apart.reserved x h);
    }

-- The reports of the rebuilt journal change nothing that a checkpoint holds.
record IsSameLists (h g : GuestHeap) : Type 0 where
  pub lists : g.lists ≡ h.lists
  pub used : g.used ≡ h.used
  pub peak : g.peak ≡ h.peak
  pub bytes : g.bytes ≡ h.bytes
  pub pages : g.extension_pages ≡ h.extension_pages

one_report :
    (operation : ℕ) (failure : List ℕ) (h g : GuestHeap)
    → IsSameLists h g
    → IsSameLists h (report_invariant operation failure g)
unfolding report_invariant
one_report operation failure h g s =
    if-property (IsSameLists h) (is_reported (operation ∷ failure) g.invariant_failures) _ _
      (λ c. s)
      (λ c. record {
        lists = s.lists;
        used = s.used;
        peak = s.peak;
        bytes = s.bytes;
        pages = s.pages;
      })

report-IsSameLists :
    (operation : ℕ) (action : List ℕ) (failures : List (List ℕ)) (h g : GuestHeap)
    → IsSameLists h g
    → IsSameLists h (report_all operation action failures g)
unfolding report_all
report-IsSameLists operation action [] h g s = s
report-IsSameLists operation action (failure ∷ failures) h g s =
    report-IsSameLists operation action failures h _
      (one_report operation (action ++ failure) h g s)

capture-length : (es : List Extent) → length (capture_elements es) % 2 ≡ 0
unfolding capture_elements
capture-length [] = refl
capture-length (e ∷ es) = omega (arith, capture-length es)

-- What restoring gives back of a pool.
pub record IsRestored (h g : GuestHeap) : Type 0 where
  pub filed : IsFiled g.lists
  pub weight : (w : ℕ → ℕ → ℕ) → Additive w → weigh w g.lists.elements ≡ weigh w h.lists.elements
  pub used : g.used ≡ h.used
  pub peak : g.peak ≡ h.peak
  pub bytes : g.bytes ≡ h.bytes
  pub pages : g.extension_pages ≡ h.extension_pages

accepts-capture :
    (h k : GuestHeap)
    → IsSound h
    → k.valid ≡ true
    → k.initial_bytes ≡ h.initial_bytes
    → h.bytes ≤ k.maximum_high - k.low
    → (k.valid
        && (is_even (suc (suc (length (capture_elements h.lists.elements))))
            && can_restore h.bytes k))
      ≡ true
unfolding can_restore
accepts-capture h k s valid initial fits =
    let p = s.placed in
    ground (arith, valid, initial, fits, p.span, capture-length h.lists.elements)

rebuild-IsSameLists :
    (owner : List ℕ) (h : GuestHeap) → IsSameLists h (rebuild_opaque_ownership owner h)
unfolding rebuild_opaque_ownership
rebuild-IsSameLists owner h =
    let gaps = opaque_gaps h.bytes 112 h.allocation_sequence owner h.lists.elements in
    let rebuilt : GuestHeap = record h {
      allocated = subtract_pages h.initial_bytes h.extension_pages gaps;
      allocation_sequence = h.allocation_sequence + length gaps;
    } in
    report-IsSameLists h.operation_sequence [] (check_invariants rebuilt) h rebuilt
      (record { lists = refl; used = refl; peak = refl; bytes = refl; pages = refl })

restored-IsRestored :
    (owner : List ℕ) (h k : GuestHeap)
    → IsSound h
    → k.initial_bytes ≡ h.initial_bytes
    → IsRestored h (restored owner h.used h.peak h.bytes (capture_elements h.lists.elements) k)
unfolding restored
restored-IsRestored owner h k s initial =
    let p = s.placed in
    let q =
      enqueue_pairs-IsRefiled (h.initial_bytes % 65536) h.bytes h.lists.elements empty_lists
        (omega arith) (sound-IsFilable h s) (sound-IsRestorable h s) in
    let k' : GuestHeap = record k {
      lists = enqueue_pairs h.bytes (capture_elements h.lists.elements) empty_lists;
      allocated = [];
      invariant_failures = [];
      operation_sequence = 0;
      allocation_sequence = 0;
      bytes = h.bytes;
      high = k.low + h.bytes;
      extension_pages = (h.bytes - k.initial_bytes) / 65536;
      used = h.used;
      peak = h.peak;
    } in
    let same = rebuild-IsSameLists owner k' in
    record {
      filed = subst IsFiled (sym same.lists) q.filed;
      weight = λ w additive.
          ap (λ (f : FreeLists). weigh w f.elements) same.lists
          ∙ unfold empty_lists in omega (arith, q.weight w additive);
      used = same.used;
      peak = same.peak;
      bytes = same.bytes;
      pages = same.pages ∙ omega (arith, p.span, initial);
    }

-- A pool of the same place accepts the checkpoint of a sound pool, and then has the same free
-- bytes, filed in its lists, the same counts and the same length.
pub restore_heap-capture_heap :
    (owner : List ℕ) (h k : GuestHeap)
    → IsSound h
    → k.valid ≡ true
    → k.initial_bytes ≡ h.initial_bytes
    → h.bytes ≤ k.maximum_high - k.low
    → let (accepted, g) = restore_heap owner (capture_heap h) k in
      (accepted ≡ true) × IsRestored h g
unfolding restore_heap capture_heap
restore_heap-capture_heap owner h k s valid initial fits =
    let q = restored-IsRestored owner h k s initial in
    if-property (λ (r : Bool × GuestHeap). (r.0 ≡ true) × IsRestored h r.1)
      (not (
        k.valid
        && (is_even (suc (suc (length (capture_elements h.lists.elements))))
            && can_restore h.bytes k)))
      _ _ (λ c. absurd (ground (arith, c, accepts-capture h k s valid initial fits)))
      (λ c. (refl, q))
