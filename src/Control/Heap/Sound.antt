-- ===== src/Control/Heap/Sound.antt =====
-- The invariant of the pool of src/Processors/ControlStorage/GuestHeap.cpp: every byte belongs to
-- a free element, an allocation or a reserved prefix, and to one of them only.
use sim.Base.{
  if-property, ℕ, zero, suc, ◌+◌, ◌-◌, ◌*◌, ◌%◌, ◌≤◌, ◌<◌, ◌≡◌, refl, true, ◌&&◌, List, [], ◌∷◌,
  ◌++◌, ltb, leb, arith, Bool-cases, inl, inr,
}
use sim.Base.Int.{pos}
use sim.Control.Heap.Sets.{Extent, weigh}
use sim.Control.Heap.FreeLists.{Block}
use sim.Control.Heap.Ledger.{Additive, in_extent, in_extent-Additive, IsFiled}
use sim.Control.Heap.Enqueue.{IsApart}
use sim.Control.Heap.Pool.{Live, GuestHeap, live_extents, insert_live, sort_allocated}

-- The prefixes of the first so many segments beyond the initial one.
abbrev pub prefixes : (initial pages : ℕ) → List Extent
prefixes initial zero = []
prefixes initial (suc page) =
    record { off = initial + page * 65536; size = 16 } ∷ prefixes initial page

-- No allocation is empty, and they are in order.
abbrev pub Ordered : ℕ → List Live → Type 0
Ordered low [] = Unit {0}
Ordered low (e ∷ es) = (low ≤ e.off) × (0 < e.length) × Ordered e.off es

-- The initial segment ends on a 64 KB boundary, as the one of the processor does.
pub record IsPlaced (h : GuestHeap) : Type 0 where
  pub valid : h.valid ≡ true
  pub low : 8192 ≤ h.low
  pub header : 112 < h.initial_bytes
  pub initial : h.initial_bytes ≤ 65536
  pub boundary : (h.low + h.initial_bytes) % 65536 ≡ 0
  pub aligned : h.initial_bytes % 16 ≡ 0
  pub span : h.bytes ≡ h.initial_bytes + h.extension_pages * 65536
  pub high : h.high ≡ h.low + h.bytes

pub record IsSound (h : GuestHeap) : Type 0 where
  pub placed : IsPlaced h
  pub filed : IsFiled h.lists
  pub ordered : Ordered 0 h.allocated
  -- Free elements, allocations and prefixes make up the pool after its header.
  pub balance :
      (w : ℕ → ℕ → ℕ)
      → Additive w
      → weigh w h.lists.elements
          + (weigh w (live_extents h.allocated)
              + weigh w (prefixes h.initial_bytes h.extension_pages))
        ≡ w 112 (h.bytes - 112)
  pub account : h.used ≡ pos (weigh (λ o s. s) (live_extents h.allocated))

Ordered-weaken : (low high : ℕ) (es : List Live) → low ≤ high → Ordered high es → Ordered low es
Ordered-weaken low high [] h o = o
Ordered-weaken low high (e ∷ es) h (l, n, o) = (omega arith, n, o)

Ordered-insert :
    (low : ℕ) (e : Live) (es : List Live)
    → low ≤ e.off
    → 0 < e.length
    → Ordered low es
    → Ordered low (insert_live e es)
unfolding insert_live
Ordered-insert low e [] h n o = (h, n, tt)
Ordered-insert low e (x ∷ xs) h n (l, k, o) =
    if-property (Ordered low) (leb e.off x.off) _ _ (λ c. (h, n, (ground (arith, c), k, o)))
      (λ c. (l, k, Ordered-insert x.off e xs (ground (arith, c)) n o))

weigh-insert_live :
    (w : ℕ → ℕ → ℕ) (e : Live) (es : List Live)
    → weigh w (live_extents (insert_live e es)) ≡ w e.off e.length + weigh w (live_extents es)
unfolding insert_live
weigh-insert_live w e [] = refl
weigh-insert_live w e (x ∷ xs) =
    if-property (λ r. weigh w (live_extents r) ≡ w e.off e.length + weigh w (live_extents (x ∷ xs)))
      (leb e.off x.off) _ _ (λ c. refl) (λ c. omega (arith, weigh-insert_live w e xs))

pub weigh-sort_allocated :
    (w : ℕ → ℕ → ℕ) (es : List Live)
    → weigh w (live_extents (sort_allocated es)) ≡ weigh w (live_extents es)
unfolding sort_allocated
weigh-sort_allocated w [] = refl
weigh-sort_allocated w (e ∷ es) =
    omega (arith, weigh-insert_live w e (sort_allocated es), weigh-sort_allocated w es)

pub weigh-append :
    (w : ℕ → ℕ → ℕ) (es fs : List Live)
    → weigh w (live_extents (es ++ fs)) ≡ weigh w (live_extents es) + weigh w (live_extents fs)
weigh-append w [] fs = omega arith
weigh-append w (e ∷ es) fs = omega (arith, weigh-append w es fs)

-- No allocation is empty.
abbrev pub Filled : List Live → Type 0
Filled [] = Unit {0}
Filled (e ∷ es) = (0 < e.length) × Filled es

pub Ordered-Filled : (low : ℕ) (es : List Live) → Ordered low es → Filled es
Ordered-Filled low [] o = tt
Ordered-Filled low (e ∷ es) (l, n, o) = (n, Ordered-Filled e.off es o)

pub Filled-append : (es fs : List Live) → Filled es → Filled fs → Filled (es ++ fs)
Filled-append [] fs a b = b
Filled-append (e ∷ es) fs (n, a) b = (n, Filled-append es fs a b)

-- The sorted journal is in order.
pub sort_allocated-Ordered : (es : List Live) → Filled es → Ordered 0 (sort_allocated es)
unfolding sort_allocated
sort_allocated-Ordered [] f = tt
sort_allocated-Ordered (e ∷ es) (n, f) =
    Ordered-insert 0 e (sort_allocated es) (omega arith) n (sort_allocated-Ordered es f)

-- A byte on a 64 KB boundary of guest storage is in a prefix.
boundary_prefix :
    (x initial pages : ℕ)
    → initial ≤ x
    → x < initial + pages * 65536
    → x % 65536 ≡ initial % 65536
    → 1 ≤ weigh (in_extent x) (prefixes initial pages)
boundary_prefix x initial zero a b c = absurd (omega arith)
boundary_prefix x initial (suc page) a b c = elim (Bool-cases (ltb x (initial + page * 65536))) [
  | inl below ↦ omega (arith, boundary_prefix x initial page a (ground (arith, below)) c)
  | inr above ↦
      let here : x ≡ initial + page * 65536 = ground (arith, above) in ground (arith, here)
]

pub in_extent_le : (x off size : ℕ) → in_extent x off size ≤ 1
in_extent_le x off size = ground arith

-- Where a block and lists weigh what a part of the pool does, they are apart.
pub balance-IsApart :
    (h : GuestHeap) (b : Block) (others : (ℕ → ℕ → ℕ) → ℕ)
    → IsPlaced h
    → ((w : ℕ → ℕ → ℕ)
        → Additive w
        → w b.off b.size
            + weigh w b.lists.elements
            + others w
            + weigh w (prefixes h.initial_bytes h.extension_pages)
          ≡ w 112 (h.bytes - 112))
    → IsApart (h.initial_bytes % 65536) b
balance-IsApart h b others p balance = record {
  once = λ x. ground (arith, balance (in_extent x) (in_extent-Additive x));
  reserved = λ x c.
      let inside = balance (in_extent x) (in_extent-Additive x) in
      let prefix = boundary_prefix x h.initial_bytes h.extension_pages in
      let far : (112 ≤ x) → h.initial_bytes ≤ x = λ d. omega (arith, p.initial, p.header) in
      elim (Bool-cases (leb 112 x && ltb x h.bytes)) [
        | inl in_pool ↦
            let from = far (ground (arith, in_pool)) in
            let upto : x < h.initial_bytes + h.extension_pages * 65536 =
              ground (arith, in_pool, p.span) in
            omega (arith, prefix from upto c, inside, in_extent_le x 112 (h.bytes - 112))
        | inr out ↦ ground (arith, inside, out)
      ];
}
