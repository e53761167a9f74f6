-- ===== src/Control/Heap/Ends.antt =====
-- The loops of `enqueue` in src/Processors/ControlStorage/GuestHeap.cpp end within the fuel that they
-- have here.
use sim.Base.{
  if-property, ℕ, zero, suc, ◌+◌, ◌-◌, ◌*◌, ◌^◌, ◌≤◌, ◌≡◌, refl, sym, ap, subst, false, some, List,
  [], ◌∷◌, leb, if◌then◌else◌, arith, leb→le, length,
}
use sim.Control.Heap.Sets.{Extent, find, erase, weigh}
use sim.Control.Heap.FreeLists.{
  FreeLists, class_index, dequeue, insert, found_size, is_found, absorbs, absorb, chunk_of,
  decompose, has_buddy, Block, join_buddies,
}
use sim.Control.Heap.Sizes.{double_class, chunk_of-IsClassSize}
use sim.Control.Heap.Ledger.{IsFiled, dequeue-IsFiled, weigh-erase}
use sim.Control.Heap.Moves.{class_bytes-whole, absorbs-found}

length-weigh : (es : List Extent) → length es ≡ weigh (λ o n. 1) es
length-weigh [] = refl
length-weigh (e ∷ es) = omega (arith, length-weigh es)

length-erase :
    (f : FreeLists) (off n : ℕ)
    → IsFiled f
    → find off f.elements ≡ some n
    → suc (length (erase off f.elements)) ≡ length f.elements
length-erase f off n filed there = omega (
  arith,
  length-weigh f.elements,
  length-weigh (erase off f.elements),
  weigh-erase (λ o m. 1) off n 0 f.elements filed.ascending there,
)

empty-find : (k : ℕ) (es : List Extent) → length es ≤ 0 → is_found (find k es) ≡ false
unfolding find
empty-find k [] h = refl
empty-find k (e ∷ es) h = absurd (omega arith)

absorb_ends :
    (left off size : ℕ) (f : FreeLists)
    → length f.elements ≤ left
    → IsFiled f
    → absorbs off (absorb left off size f).0 (absorb left off size f).1 ≡ false
unfolding absorb
absorb_ends zero off size f enough filed =
    unfold absorbs in ground (arith, empty-find (off + size) f.elements (omega arith))
absorb_ends (suc left) off size f enough filed =
    if-property (λ (r : ℕ × FreeLists). absorbs off r.0 r.1 ≡ false) (absorbs off size f) _ _
      (λ h.
        let (n, there) = absorbs-found off size f h in
        let same : found_size (find (off + size) f.elements) ≡ n = ap found_size there in
        let above = found_size (find (off + size) f.elements) in
        absorb_ends left off (size + above) (dequeue (class_index above) (off + size) f)
          (unfold dequeue in omega (arith, length-erase f (off + size) n filed there))
          (subst (λ a. IsFiled (dequeue (class_index a) (off + size) f)) (sym same)
            (dequeue-IsFiled (off + size) n f filed there)))
      (λ h. h)

buddies_end :
    (left bound off size : ℕ) (f : FreeLists)
    → 32768 ≤ size * 2 ^ left
    → let b = join_buddies left bound off size f in has_buddy bound b.off b.size b.lists ≡ false
unfolding join_buddies
buddies_end zero bound off size f h = unfold has_buddy in ground arith
buddies_end (suc left) bound off size f h =
    if-property (λ (b : Block). has_buddy bound b.off b.size b.lists ≡ false)
      (has_buddy bound off size f) _ _
      (λ c. buddies_end left bound _ (size * 2) _ (omega (arith, double_class size left))) (λ c. c)

decompose_ends :
    (left more off size : ℕ) (f : FreeLists)
    → size ≤ left
    → size ≤ more
    → decompose left off size f ≡ decompose more off size f
unfolding decompose
decompose_ends zero zero off size f h k = refl
decompose_ends zero (suc more) off size f h k =
    if-property (λ r. f ≡ r) (leb 16 size) _ _ (λ c. absurd (ground arith)) (λ c. refl)
decompose_ends (suc left) zero off size f h k =
    if-property (λ r. r ≡ f) (leb 16 size) _ _ (λ c. absurd (ground arith)) (λ c. refl)
decompose_ends (suc left) (suc more) off size f h k =
    let chunk = chunk_of size in
    let later = λ (n : ℕ). decompose n (off + chunk) (size - chunk) (insert off chunk f) in
    if-property (λ r. r ≡ (if leb 16 size then later more else f)) (leb 16 size) _ _
      (λ c.
        let (s, fits) = chunk_of-IsClassSize size (leb→le 16 size c) in
        let large = (class_bytes-whole chunk s).0 in
        if-property (λ r. later left ≡ r) (leb 16 size) _ _
          (λ d. decompose_ends left more _ _ _ (omega arith) (omega arith))
          (λ d. absurd (ground arith)))
      (λ c. if-property (λ r. f ≡ r) (leb 16 size) _ _ (λ d. absurd (ground arith)) (λ d. refl))

-- The three loops of `enqueue` end within the fuel that they have: after the first and the second,
-- on filed lists and a block of 16 bytes or more, the loop's condition is false, and any fuel of at
-- least the block's length gives what the third leaves.
pub enqueue_loops_end :
    (bound off size more : ℕ) (f : FreeLists)
    → IsFiled f
    → 16 ≤ size
    → size ≤ more
    → let (size', f') = absorb (length f.elements) off size f in
      let b = join_buddies 12 bound off size f in
      (absorbs off size' f' ≡ false)
      × (has_buddy bound b.off b.size b.lists ≡ false)
      × (decompose more off size f ≡ decompose size off size f)
enqueue_loops_end bound off size more f filed large enough = (
  absorb_ends (length f.elements) off size f (omega arith) filed,
  buddies_end 12 bound off size f (omega arith),
  decompose_ends more size off size f enough (omega arith),
)
