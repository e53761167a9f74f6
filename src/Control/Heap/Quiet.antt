-- ===== src/Control/Heap/Quiet.antt =====
-- The pool of src/Processors/ControlStorage/GuestHeap.cpp passes its own `checkInvariants`.
use sim.Base.{
  if-property, ℕ, zero, suc, ◌+◌, ◌-◌, ◌*◌, ◌≤◌, ◌<◌, ◌≡◌, refl, sym, ap, ◌∙◌, true, false, not,
  ◌&&◌, ◌||◌, List, [], ◌∷◌, ◌++◌, ltb, leb, ◌==◌, arith, All,
}
use sim.Control.Heap.Sets.{Extent, weigh, find, member}
use sim.Control.Heap.FreeLists.{class_bytes, has_size}
use sim.Control.Heap.Ledger.{in_extent, IsFiled}
use sim.Control.Heap.Pool.{
  Live, GuestHeap, live_extents, sort_allocated, heap_capacity, heap_available,
}
use sim.Control.Heap.Checks.{
  larger, check_class, check_classes, check_allocated, check_crossings, is_int, check_accounts,
  check_invariants,
}
use sim.Control.Heap.Sound.{
  in_extent_le, prefixes, Ordered, IsSound, Filled, Ordered-Filled, weigh-sort_allocated,
  sort_allocated-Ordered,
}
use sim.Control.Heap.QuietFree.{
  All-find, IsAccepted, inside, extent_inside, sound-IsAccepted, next_apart, StartsAt, no_note,
  silent, quiet_free,
}

quiet_class :
    (h : GuestHeap) (k : ℕ) (offs : List ℕ)
    → ((off : ℕ)
        → member off offs ≡ true
        → has_size (class_bytes k) (find off h.lists.elements) ≡ true)
    → check_class h k offs ≡ []
unfolding check_class
quiet_class h k [] agree = refl
quiet_class h k (off ∷ offs) agree =
    no_note (not (has_size (class_bytes k) (find off h.lists.elements))) _ _
      (ground (arith, agree off (ground arith)))
      (quiet_class h k offs (λ o m. agree o (ground (arith, m))))

append-empty : (xs ys : List (List ℕ)) → xs ≡ [] → ys ≡ [] → xs ++ ys ≡ []
append-empty [] ys h k = k
append-empty (x ∷ xs) ys h k = absurd (ground arith)

quiet_classes : (h : GuestHeap) (k : ℕ) → IsFiled h.lists → check_classes h k ≡ []
unfolding check_classes
quiet_classes h zero f = refl
quiet_classes h (suc k) f =
    append-empty (check_classes h k) (check_class h k (h.lists.classes k)) (quiet_classes h k f)
      (quiet_class h k (h.lists.classes k) (λ off m. sym (f.agree k off) ∙ m))

LiveStartsAt : ℕ → List Live → Type 0
LiveStartsAt low [] = Unit {0}
LiveStartsAt low (e ∷ es) = low ≤ e.off

live_next :
    (low previous : ℕ) (e : Live) (es : List Live)
    → 0 < e.length
    → Ordered e.off es
    → ((x : ℕ) → weigh (in_extent x) (live_extents (e ∷ es)) ≤ 1)
    → previous ≤ e.off
    → LiveStartsAt (larger previous (e.off + e.length)) es
unfolding LiveStartsAt
live_next low previous e [] n o once start = tt
live_next low previous e (d ∷ ds) n (l, k, o) once start =
    let apart = next_apart 0 e.off e.length d.off d.length k l (omega (arith, once d.off)) in
    ground (arith, apart)

quiet_allocated :
    (h : GuestHeap) (previous low : ℕ) (es : List Live)
    → Ordered low es
    → ((x : ℕ) → weigh (in_extent x) (live_extents es) ≤ in_extent x 112 (h.bytes - 112))
    → 112 ≤ h.bytes
    → LiveStartsAt previous es
    → check_allocated h previous es ≡ []
unfolding check_allocated LiveStartsAt
quiet_allocated h previous low [] o k header start = refl
quiet_allocated h previous low (e ∷ es) (l, n, o) k header start =
    let (from, to) = extent_inside (h.bytes - 112) e.off e.length n (λ x. omega (arith, k x)) in
    no_note (ltb e.off 112 || (e.length == 0 || ltb h.bytes (e.off + e.length))) _ _
      (ground (arith, from, to))
      (no_note (ltb e.off previous) _ _ (ground (arith, start)) (
        quiet_allocated h (larger previous (e.off + e.length)) e.off es o (λ x. omega (arith, k x))
          header
          (live_next low previous e es n o
            (λ x. omega (arith, k x, in_extent_le x 112 (h.bytes - 112))) start)))

-- Two extents that share no byte do not cross.
no_crossing :
    (off size at length : ℕ)
    → 0 < size
    → 0 < length
    → ((x : ℕ) → in_extent x off size + in_extent x at length ≤ 1)
    → (ltb off (at + length) && ltb at (off + size)) ≡ false
no_crossing off size at length n k once = ground (arith, once off, once at)

quiet_crossings :
    (h : GuestHeap) (fs : List Extent) (es : List Live)
    → All (λ (d : Extent). IsAccepted h d.off d.size) fs
    → Filled es
    → ((x : ℕ) → weigh (in_extent x) fs + weigh (in_extent x) (live_extents es) ≤ 1)
    → check_crossings h fs es ≡ []
unfolding check_crossings
quiet_crossings h [] es k n once = refl
quiet_crossings h (f ∷ fs) [] k n once = refl
quiet_crossings h (f ∷ fs) (e ∷ es) (k, ks) (n, ns) once =
    no_note (ltb f.off (e.off + e.length) && ltb e.off (f.off + f.size)) _ _
      (no_crossing f.off f.size e.off e.length k.some_bytes n (λ x. omega (arith, once x)))
      (if-property (λ r. r ≡ []) (leb (f.off + f.size) (e.off + e.length)) _ _
        (λ c. quiet_crossings h fs (e ∷ es) ks (n, ns) (λ x. omega (arith, once x)))
        (λ c. quiet_crossings h (f ∷ fs) es (k, ks) ns (λ x. omega (arith, once x))))

prefixes-total : (initial pages : ℕ) → weigh (λ o s. s) (prefixes initial pages) ≡ pages * 16
prefixes-total initial zero = refl
prefixes-total initial (suc page) = omega (arith, prefixes-total initial page)

pub sound-total :
    (h : GuestHeap)
    → IsSound h
    → weigh (λ o s. s) h.lists.elements + weigh (λ o s. s) (live_extents h.allocated)
      ≡ heap_capacity h
unfolding heap_capacity
sound-total h s =
    omega (
      arith,
      s.balance (λ o n. n) (λ o n k. refl),
      prefixes-total h.initial_bytes h.extension_pages,
    )

quiet_accounts : (h : GuestHeap) → IsSound h → check_accounts h ≡ []
unfolding check_accounts
quiet_accounts h s =
    let total = weigh (λ o n. n) (live_extents h.allocated) in
    no_note (not (weigh (λ o n. n) h.lists.elements == heap_available h)) _ _
      (unfold heap_available in ground arith)
      (no_note (not (is_int total h.used)) _ _
        (ap (λ u. not (is_int total u)) s.account ∙ ground arith)
        (silent _ _ (let sum = sound-total h s in ground (arith, sum))))

first_start :
    (h : GuestHeap) (es : List Extent)
    → All (λ (d : Extent). IsAccepted h d.off d.size) es
    → StartsAt 112 es
first_start h [] k = tt
first_start h (e ∷ es) (k, ks) = k.from

first_live :
    (h : GuestHeap) (low : ℕ) (es : List Live)
    → Ordered low es
    → ((x : ℕ) → weigh (in_extent x) (live_extents es) ≤ in_extent x 112 (h.bytes - 112))
    → LiveStartsAt 112 es
unfolding LiveStartsAt
first_live h low [] o k = tt
first_live h low (e ∷ es) (l, n, o) k =
    (extent_inside (h.bytes - 112) e.off e.length n (λ x. omega (arith, k x))).0

-- A sound pool passes every check of `check_invariants`.
pub check_invariants-IsSound : (h : GuestHeap) → IsSound h → check_invariants h ≡ []
unfolding check_invariants
check_invariants-IsSound h s =
    let p = s.placed in
    let es = h.lists.elements in
    let sorted = sort_allocated h.allocated in
    let accepted =
      All-find (IsAccepted h) 0 es s.filed.ascending (λ off size. sound-IsAccepted h off size s) in
    let filled = Ordered-Filled 0 h.allocated s.ordered in
    let ordered = sort_allocated-Ordered h.allocated filled in
    let same = λ (x : ℕ). weigh-sort_allocated (in_extent x) h.allocated in
    let once = λ (x : ℕ). in_extent_le x 112 (h.bytes - 112) in
    append-empty _ _
      (quiet_free h 112 0 es s.filed.ascending accepted (λ x. omega (arith, inside h x s, once x))
        (first_start h es accepted))
      (append-empty _ _ (quiet_classes h 12 s.filed) (
        append-empty _ _
          (quiet_allocated h 112 0 sorted ordered (λ x. omega (arith, inside h x s, same x))
            (omega (arith, p.span, p.header))
            (first_live h 0 sorted ordered (λ x. omega (arith, inside h x s, same x))))
          (append-empty _ _
            (quiet_crossings h es sorted accepted (Ordered-Filled 0 sorted ordered)
              (λ x. omega (arith, inside h x s, same x, once x)))
            (quiet_accounts h s))))
