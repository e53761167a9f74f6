-- ===== src/Control/Heap/Moves.antt =====
-- The first two loops of `enqueue` in src/Processors/ControlStorage/GuestHeap.cpp: they move bytes
-- between a block and the free lists and lose none.
use native.Mathlib.Nat.{pow-suc, one-le-pow}
use sim.Base.{
  if-property, ℕ, zero, suc, ◌+◌, ◌*◌, ◌%◌, ◌^◌, ◌≤◌, ◌<◌, bit_xor, ◌≡◌, sym, ap, subst, ◌∙◌, ◌⊎◌,
  inl, inr, true, some, ltb, if◌then◌else◌, arith, Option-cases,
}
use sim.Base.Bits.{xor_bit}
use sim.Control.Heap.Sets.{find, weigh}
use sim.Control.Heap.FreeLists.{
  FreeLists, class_index, class_bytes, dequeue, found_size, is_found, has_size, absorbs, absorb,
  has_buddy, Block, join_buddies,
}
use sim.Control.Heap.Sizes.{double-IsClassSize}
use sim.Control.Heap.Ledger.{Additive, IsClassSize, IsFiled, dequeue-IsFiled, weigh-erase}

-- Block and lists weigh the same, the lists stay filed, and the length stays a multiple of 16.
pub record IsMoved (b c : Block) : Type 0 where
  pub filed : IsFiled c.lists
  pub whole : c.size % 16 ≡ 0
  pub aligned : c.off % 16 ≡ 0
  pub weight :
      (w : ℕ → ℕ → ℕ)
      → Additive w
      → w c.off c.size + weigh w c.lists.elements ≡ w b.off b.size + weigh w b.lists.elements

pub class_bytes-whole : (n : ℕ) → IsClassSize n → (16 ≤ n) × (n % 16 ≡ 0)
class_bytes-whole n s =
    let index = class_index n in
    (omega (arith, s.exact, one-le-pow index 2), omega (arith, s.exact))

pub absorbs-found :
    (off size : ℕ) (f : FreeLists)
    → absorbs off size f ≡ true
    → (n : ℕ) × (find (off + size) f.elements ≡ some n)
unfolding absorbs
absorbs-found off size f h = elim (Option-cases (find (off + size) f.elements)) [
  | inl gone ↦ absurd (ground (arith, ap is_found gone))
  | inr (n, there) ↦ (n, there)
]

-- One round of the first loop.
absorb_step :
    (b : Block) (off size : ℕ) (f : FreeLists)
    → IsMoved b (record { off = off; size = size; lists = f })
    → absorbs off size f ≡ true
    → let above = found_size (find (off + size) f.elements) in
      IsMoved b (record {
        off = off;
        size = size + above;
        lists = dequeue (class_index above) (off + size) f;
      })
absorb_step b off size f m h =
    let (n, there) = absorbs-found off size f h in
    let same : found_size (find (off + size) f.elements) ≡ n = ap found_size there in
    subst
      (λ a.
        IsMoved b
          (record { off = off; size = size + a; lists = dequeue (class_index a) (off + size) f }))
      (sym same)
      (record {
        filed = dequeue-IsFiled (off + size) n f m.filed there;
        whole = omega (arith, m.whole, class_bytes-whole n (m.filed.sizes (off + size) n there));
        aligned = m.aligned;
        weight = λ w additive.
            unfold dequeue in
            omega (
              arith,
              m.weight w additive,
              additive off size n,
              weigh-erase w (off + size) n 0 f.elements m.filed.ascending there,
            );
      })

pub absorb-IsMoved :
    (left : ℕ) (b : Block) (off size : ℕ) (f : FreeLists)
    → IsMoved b (record { off = off; size = size; lists = f })
    → let (size', f') = absorb left off size f in
      IsMoved b (record { off = off; size = size'; lists = f' })
unfolding absorb
absorb-IsMoved zero b off size f m = m
absorb-IsMoved (suc left) b off size f m =
    if-property
      (λ r. let (size', f') = r in IsMoved b (record { off = off; size = size'; lists = f' }))
      (absorbs off size f) _ _ (λ h. absorb-IsMoved left b off _ _ (absorb_step b off size f m h))
      (λ h. m)

class_bit : (k : ℕ) → class_bytes k ≡ 2 ^ suc (suc (suc (suc k)))
class_bit k =
    omega (
      arith,
      pow-suc 2 k,
      pow-suc 2 (suc k),
      pow-suc 2 (suc (suc k)),
      pow-suc 2 (suc (suc (suc k))),
    )

-- The buddy of a block is the block of the same length on one side of it.
buddy_beside :
    (off size : ℕ)
    → IsClassSize size
    → (bit_xor off size ≡ off + size) ⊎ (bit_xor off size + size ≡ off)
buddy_beside off size s =
    subst (λ n. (bit_xor off n ≡ off + n) ⊎ (bit_xor off n + n ≡ off))
      (sym (class_bit (class_index size)) ∙ s.exact)
      (xor_bit (suc (suc (suc (suc (class_index size))))) off)

-- The weight of the two is that of one block, from the lower of them.
buddies_weight :
    (w : ℕ → ℕ → ℕ) (off size : ℕ)
    → Additive w
    → IsClassSize size
    → w (if ltb (bit_xor off size) off then bit_xor off size else off) (size * 2)
      ≡ w off size + w (bit_xor off size) size
buddies_weight w off size additive s =
    let buddy = bit_xor off size in
    let twice : size * 2 ≡ size + size = omega arith in
    let positive = (class_bytes-whole size s).0 in
    elim (buddy_beside off size s) [
      | inl above ↦
          let lower : (if ltb buddy off then buddy else off) ≡ off = ground (arith, above) in
          omega (
            arith,
            ap (λ o. w o (size * 2)) lower,
            ap (w off) twice,
            additive off size size,
            ap (λ o. w o size) above,
          )
      | inr below ↦
          let lower : (if ltb buddy off then buddy else off) ≡ buddy = ground (arith, below) in
          omega (
            arith,
            ap (λ o. w o (size * 2)) lower,
            ap (w buddy) twice,
            additive buddy size size,
            ap (λ o. w o size) below,
          )
    ]

pub buddy-found :
    (bound off size : ℕ) (f : FreeLists)
    → has_buddy bound off size f ≡ true
    → (size < 32768) × (find (bit_xor off size) f.elements ≡ some size)
unfolding has_buddy
buddy-found bound off size f h = elim (Option-cases (find (bit_xor off size) f.elements)) [
  | inl gone ↦ absurd (ground (arith, ap (has_size size) gone))
  | inr (n, there) ↦ (ground arith, there ∙ ap some (ground (arith, ap (has_size size) there)))
]

-- One round of the buddy loop.
buddy_step :
    (b : Block) (bound off size : ℕ) (f : FreeLists)
    → IsMoved b (record { off = off; size = size; lists = f })
    → IsClassSize size
    → has_buddy bound off size f ≡ true
    → let buddy = bit_xor off size in
      IsMoved b (record {
        off = if ltb buddy off then buddy else off;
        size = size * 2;
        lists = dequeue (class_index size) buddy f;
      })
buddy_step b bound off size f m s h =
    let (small, there) = buddy-found bound off size f h in
    let buddy = bit_xor off size in
    record {
      filed = dequeue-IsFiled buddy size f m.filed there;
      whole = omega (arith, m.whole);
      aligned = ground (arith, m.aligned, m.filed.aligned buddy size there);
      weight = λ w additive.
          unfold dequeue in
          omega (
            arith,
            m.weight w additive,
            buddies_weight w off size additive s,
            weigh-erase w buddy size 0 f.elements m.filed.ascending there,
          );
    }

pub join_buddies-IsMoved :
    (left : ℕ) (b : Block) (bound off size : ℕ) (f : FreeLists)
    → IsMoved b (record { off = off; size = size; lists = f })
    → IsClassSize size
    → IsMoved b (join_buddies left bound off size f)
      × IsClassSize (join_buddies left bound off size f).size
unfolding join_buddies
join_buddies-IsMoved zero b bound off size f m s = (m, s)
join_buddies-IsMoved (suc left) b bound off size f m s =
    if-property (λ r. IsMoved b r × IsClassSize r.size) (has_buddy bound off size f) _ _
      (λ h.
        join_buddies-IsMoved left b bound _ _ _ (buddy_step b bound off size f m s h)
          (double-IsClassSize size s (buddy-found bound off size f h).0))
      (λ h. (m, s))

pub Additive-zero : (w : ℕ → ℕ → ℕ) (o : ℕ) → Additive w → w o 0 ≡ 0
Additive-zero w o additive =
    let here : o + 0 ≡ o = omega arith in omega (arith, additive o 0 0, ap (λ p. w p 0) here)
