-- ===== src/Control/Heap/QuietFree.antt =====
-- The free elements of a sound pool pass the checks of src/Processors/ControlStorage/GuestHeap.cpp.
use sim.Base.{
  ℕ, suc, ◌+◌, ◌-◌, ◌≤◌, ◌<◌, ◌≡◌, refl, ap, Bool, true, false, some, List, [], ◌∷◌, ◌++◌, ltb,
  arith, All,
}
use sim.Control.Heap.Sets.{Extent, weigh, find, Ascending}
use sim.Control.Heap.FreeLists.{class_index, class_bytes, has_size}
use sim.Control.Heap.Ledger.{in_extent, in_extent-Additive, weigh-erase}
use sim.Control.Heap.Sizes.{class_bytes-power}
use sim.Control.Heap.Moves.{class_bytes-whole}
use sim.Control.Heap.Pool.{GuestHeap, live_extents}
use sim.Control.Heap.Checks.{note, larger, is_misplaced, is_misfiled, check_free}
use sim.Control.Heap.Sound.{IsSound}

above-find :
    (off size low : ℕ) (es : List Extent) → Ascending low es → find off es ≡ some size → low ≤ off
unfolding find
above-find off size low [] a h = absurd (ground arith)
above-find off size low (e ∷ es) (l, a) h =
    let rest = above-find off size (suc e.off) es a in ground (arith, rest)

-- What is found in a map, said of its elements.
pub All-find {ℓ} :
    (P : ℕ → ℕ → Type ℓ) (low : ℕ) (es : List Extent)
    → Ascending low es
    → ((off size : ℕ) → find off es ≡ some size → P off size)
    → All (λ (e : Extent). P e.off e.size) es
unfolding find
All-find P low [] a h = tt
All-find P low (e ∷ es) (l, a) h = (
  h e.off e.size (ground arith),
  All-find P (suc e.off) es a (λ off size there.
      h off size (ground (arith, there, above-find off size (suc e.off) es a there))),
)

-- An element that the code's checks accept.
pub record IsAccepted (h : GuestHeap) (off size : ℕ) : Type 0 where
  pub some_bytes : 0 < size
  pub placed : is_misplaced h.bytes off size ≡ false
  pub filed : is_misfiled h.lists off size ≡ false
  pub from : 112 ≤ off

-- Nothing but the pool after its header is weighed.
pub inside :
    (h : GuestHeap) (x : ℕ)
    → IsSound h
    → weigh (in_extent x) h.lists.elements + weigh (in_extent x) (live_extents h.allocated)
      ≤ in_extent x 112 (h.bytes - 112)
inside h x s = omega (arith, s.balance (in_extent x) (in_extent-Additive x))

at_most :
    (x : ℕ) (w off size n : ℕ)
    → in_extent x off size ≤ in_extent x 112 n
    → off ≤ x
    → x < off + size
    → (112 ≤ x) × (x < 112 + n)
at_most x w off size n h a b = (ground (arith, h), ground (arith, h))

pub extent_inside :
    (n off size : ℕ)
    → 0 < size
    → ((x : ℕ) → in_extent x off size ≤ in_extent x 112 n)
    → (112 ≤ off) × (off + size ≤ 112 + n)
extent_inside n off size positive h =
    let (from, a) = at_most off 0 off size n (h off) (omega arith) (omega arith) in
    let (b, to) =
      at_most (off + size - 1) 0 off size n (h (off + size - 1)) (omega arith) (omega arith) in
    (from, omega arith)

pub sound-IsAccepted :
    (h : GuestHeap) (off size : ℕ)
    → IsSound h
    → find off h.lists.elements ≡ some size
    → IsAccepted h off size
sound-IsAccepted h off size s there =
    let p = s.placed in
    let class = s.filed.sizes off size there in
    let (large, whole) = class_bytes-whole size class in
    let (from, to) = extent_inside (h.bytes - 112) off size (omega arith) (λ x. omega (
      arith,
      inside h x s,
      weigh-erase (in_extent x) off size 0 h.lists.elements s.filed.ascending there,
    )) in
    let header : 112 ≤ h.bytes = omega (arith, p.span, p.header) in
    record {
      some_bytes = omega arith;
      placed = unfold is_misplaced in ground (arith, s.filed.aligned off size there);
      filed =
          unfold is_misfiled in
          ground (
            arith,
            class_bytes-power size class,
            class.index,
            class.exact,
            s.filed.agree (class_index size) off,
            ap (has_size (class_bytes (class_index size))) there,
          );
      from = from;
    }

-- The next element does not start before this one ends.
pub next_apart :
    (w : ℕ) (off size next length : ℕ)
    → 0 < length
    → off ≤ next
    → in_extent next off size + in_extent next next length ≤ 1
    → off + size ≤ next
next_apart w off size next length positive h once = ground (arith, once)

abbrev pub StartsAt : ℕ → List Extent → Type 0
StartsAt low [] = Unit {0}
StartsAt low (e ∷ es) = low ≤ e.off

StartsAt-next :
    (e : Extent) (es : List Extent) (h : GuestHeap)
    → Ascending e.off es
    → All (λ (d : Extent). IsAccepted h d.off d.size) es
    → ((x : ℕ) → weigh (in_extent x) (e ∷ es) ≤ 1)
    → StartsAt (e.off + e.size) es
StartsAt-next e [] h a k once = tt
StartsAt-next e (d ∷ ds) h (l, a) (k, ks) once =
    next_apart 0 e.off e.size d.off d.size k.some_bytes l (omega (arith, once d.off))

Ascending-low :
    (low high : ℕ) (es : List Extent) → low ≤ high → Ascending high es → Ascending low es
Ascending-low low high [] h a = a
Ascending-low low high (e ∷ es) h (l, a) = (omega arith, a)

StartsAt-larger :
    (es : List Extent) (previous end : ℕ)
    → previous ≤ end
    → StartsAt end es
    → StartsAt (larger previous end) es
StartsAt-larger [] previous end h s = tt
StartsAt-larger (e ∷ es) previous end h s = ground (arith, s)

pub no_note :
    (b : Bool) (failure : List ℕ) (rest : List (List ℕ))
    → b ≡ false
    → rest ≡ []
    → note b failure ++ rest ≡ []
no_note true failure rest h k = absurd (ground arith)
no_note false failure rest h k = k

pub silent : (b : Bool) (failure : List ℕ) → b ≡ false → note b failure ≡ []
silent true failure h = absurd (ground arith)
silent false failure h = refl

pub quiet_free :
    (h : GuestHeap) (previous low : ℕ) (es : List Extent)
    → Ascending low es
    → All (λ (d : Extent). IsAccepted h d.off d.size) es
    → ((x : ℕ) → weigh (in_extent x) es ≤ 1)
    → StartsAt previous es
    → check_free h previous es ≡ []
unfolding check_free
quiet_free h previous low [] a k once start = refl
quiet_free h previous low (e ∷ es) (l, a) (k, ks) once start =
    let next = StartsAt-next e es h (Ascending-low e.off (suc e.off) es (omega arith) a) ks once in
    no_note (is_misplaced h.bytes e.off e.size) _ _ k.placed (
      no_note (ltb e.off previous) _ _ (ground (arith, start)) (
        no_note (is_misfiled h.lists e.off e.size) _ _ k.filed (
          quiet_free h (larger previous (e.off + e.size)) (suc e.off) es a ks
            (λ x. omega (arith, once x))
            (StartsAt-larger es previous (e.off + e.size) (omega arith) next))))
