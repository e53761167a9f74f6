-- ===== src/Control/Heap/Enqueue.antt =====
-- `enqueue` of src/Processors/ControlStorage/GuestHeap.cpp: what a filed block adds to the free lists.
use sim.Base.{
  if-property, ℕ, zero, suc, ◌+◌, ◌-◌, ◌%◌, ◌≤◌, ◌<◌, ◌≡◌, refl, ap, inl, inr, none, ltb, leb,
  arith, ltb→lt, leb→le, length, Bool-cases, Option-cases,
}
use sim.Control.Heap.Sets.{find, weigh}
use sim.Control.Heap.FreeLists.{
  FreeLists, insert, is_power_of_two, absorbs, absorb, chunk_of, decompose, Block, file_block, file,
  enqueue,
}
use sim.Control.Heap.Sizes.{power-IsClassSize, chunk_of-IsClassSize}
use sim.Control.Heap.Ledger.{
  Additive, in_extent, in_extent-Additive, IsClassSize, IsFiled, insert-IsFiled, weigh-erase,
  weigh-put,
}
use sim.Control.Heap.Moves.{
  IsMoved, class_bytes-whole, absorb-IsMoved, join_buddies-IsMoved, Additive-zero,
}

-- Room for a block that is not on the lists: with the elements it covers no byte twice, and of
-- every 64 KB it leaves out the byte at `gap`.
pub record IsApart (gap : ℕ) (b : Block) : Type 0 where
  pub once : (x : ℕ) → in_extent x b.off b.size + weigh (in_extent x) b.lists.elements ≤ 1
  pub reserved :
      (x : ℕ)
      → x % 65536 ≡ gap
      → in_extent x b.off b.size + weigh (in_extent x) b.lists.elements ≡ 0

IsApart-absent :
    (gap : ℕ) (b : Block)
    → IsFiled b.lists
    → IsApart gap b
    → 0 < b.size
    → find b.off b.lists.elements ≡ none
IsApart-absent gap b filed apart positive = elim (Option-cases (find b.off b.lists.elements)) [
  | inl gone ↦ gone
  | inr (n, there) ↦
      let large = (class_bytes-whole n (filed.sizes b.off n there)).0 in
      let erased = weigh-erase (in_extent b.off) b.off n 0 b.lists.elements filed.ascending there in
      let once = apart.once b.off in absurd (ground (arith, erased, once, large))
]

-- A block that leaves out one byte in every 64 KB is shorter than that.
IsApart-short : (gap : ℕ) (b : Block) → gap < 65536 → IsApart gap b → b.size < 65536
IsApart-short gap b small apart = elim (Bool-cases (ltb b.size 65536)) [
  | inl short ↦ ltb→lt b.size 65536 short
  | inr long ↦
      let x = b.off + (gap + 65536 - b.off % 65536) % 65536 in
      let there : x % 65536 ≡ gap = omega arith in
      let clear = apart.reserved x there in absurd (ground (arith, clear, there))
]

-- Moved blocks stay apart.
IsMoved-IsApart : (gap : ℕ) (b c : Block) → IsMoved b c → IsApart gap b → IsApart gap c
IsMoved-IsApart gap b c m apart = record {
  once = λ x. omega (arith, apart.once x, m.weight (in_extent x) (in_extent-Additive x));
  reserved =
      λ x h. omega (arith, apart.reserved x h, m.weight (in_extent x) (in_extent-Additive x));
}

-- What a filing of the block leaves.
pub record IsEnqueued (b : Block) (f : FreeLists) : Type 0 where
  pub filed : IsFiled f
  pub weight :
      (w : ℕ → ℕ → ℕ) → Additive w → weigh w f.elements ≡ w b.off b.size + weigh w b.lists.elements

insert_step :
    (gap : ℕ) (b c : Block)
    → IsMoved b c
    → IsApart gap b
    → IsClassSize c.size
    → IsEnqueued b (file_block c)
unfolding file_block
insert_step gap b c m apart s =
    let absent =
      IsApart-absent gap c m.filed (IsMoved-IsApart gap b c m apart)
        (omega (arith, (class_bytes-whole c.size s).0)) in
    record {
      filed = insert-IsFiled c.off c.size c.lists m.filed absent s m.aligned;
      weight = λ w additive.
          unfold insert in
          omega (arith, m.weight w additive, weigh-put w c.off c.size c.lists.elements absent);
    }

-- One round of the last loop: the rest of the block after its first chunk.
chunk_step :
    (gap : ℕ) (b : Block) (off size : ℕ) (f : FreeLists)
    → IsMoved b (record { off = off; size = size; lists = f })
    → IsApart gap b
    → 16 ≤ size
    → IsMoved b (record {
      off = off + chunk_of size;
      size = size - chunk_of size;
      lists = insert off (chunk_of size) f;
    })
chunk_step gap b off size f m apart large =
    let (s, fits) = chunk_of-IsClassSize size large in
    let chunk = chunk_of size in
    let c : Block = record { off = off; size = size; lists = f } in
    let absent = IsApart-absent gap c m.filed (IsMoved-IsApart gap b c m apart) (omega arith) in
    let parts : chunk + (size - chunk) ≡ size = omega arith in
    record {
      filed = insert-IsFiled off chunk f m.filed absent s m.aligned;
      whole = omega (arith, m.whole, class_bytes-whole chunk s);
      aligned = omega (arith, m.aligned, class_bytes-whole chunk s);
      weight = λ w additive.
          unfold insert in
          omega (
            arith,
            m.weight w additive,
            weigh-put w off chunk f.elements absent,
            additive off chunk (size - chunk),
            ap (w off) parts,
          );
    }

decompose-IsEnqueued :
    (left gap : ℕ) (b : Block) (off size : ℕ) (f : FreeLists)
    → size ≤ left
    → IsMoved b (record { off = off; size = size; lists = f })
    → IsApart gap b
    → IsEnqueued b (decompose left off size f)
unfolding decompose
decompose-IsEnqueued zero gap b off size f enough m apart = record {
  filed = m.filed;
  weight = λ w additive. omega (
    arith,
    m.weight w additive,
    Additive-zero w off additive,
    ap (w off) (let none_left : size ≡ 0 = omega arith in none_left),
  );
}
decompose-IsEnqueued (suc left) gap b off size f enough m apart =
    if-property (IsEnqueued b) (leb 16 size) _ _
      (λ h.
        let large = leb→le 16 size h in
        let (s, fits) = chunk_of-IsClassSize size large in
        decompose-IsEnqueued left gap b _ _ _
          (omega (arith, (class_bytes-whole (chunk_of size) s).0))
          (chunk_step gap b off size f m apart large) apart)
      (λ h.
        let none_left : size ≡ 0 = ground (arith, m.whole) in
        record {
          filed = m.filed;
          weight = λ w additive.
              omega
                (arith, m.weight w additive, Additive-zero w off additive, ap (w off) none_left);
        })

file-IsEnqueued :
    (gap : ℕ) (b : Block) (bound off size : ℕ) (f : FreeLists)
    → gap < 65536
    → IsMoved b (record { off = off; size = size; lists = f })
    → IsApart gap b
    → 0 < size
    → IsEnqueued b (file bound off (size, f))
unfolding file
file-IsEnqueued gap b bound off size f small m apart positive =
    if-property (IsEnqueued b) (is_power_of_two size) _ _
      (λ power.
        let c : Block = record { off = off; size = size; lists = f } in
        let short = IsApart-short gap c small (IsMoved-IsApart gap b c m apart) in
        let s = power-IsClassSize size power positive short m.whole in
        let (m', s') = join_buddies-IsMoved 12 b bound off size f m s in
        insert_step gap b _ m' apart s')
      (λ other. decompose-IsEnqueued size gap b off size f (omega arith) m apart)

absorb-positive : (left off size : ℕ) (f : FreeLists) → 0 < size → 0 < (absorb left off size f).0
unfolding absorb
absorb-positive zero off size f h = h
absorb-positive (suc left) off size f h =
    if-property (λ (r : ℕ × FreeLists). 0 < r.0) (absorbs off size f) _ _
      (λ c. absorb-positive left off _ _ (omega arith)) (λ c. h)

-- A block of some multiples of 16 bytes, at a multiple of 16, that is apart from the free elements is
-- added to the free lists: they stay filed, every byte is covered as often as before, and the block's
-- once more. The condition is that of every 64 KB one byte, at the same place in each, is neither in
-- the block nor in a free element, so that no free element grows to 64 KB, which is no class.
pub enqueue-IsEnqueued :
    (gap bound off size : ℕ) (f : FreeLists)
    → gap < 65536
    → IsFiled f
    → IsApart gap (record { off = off; size = size; lists = f })
    → 0 < size
    → size % 16 ≡ 0
    → off % 16 ≡ 0
    → IsEnqueued (record { off = off; size = size; lists = f }) (enqueue bound off size f)
unfolding enqueue
enqueue-IsEnqueued gap bound off size f small filed apart positive whole aligned =
    let b : Block = record { off = off; size = size; lists = f } in
    let start : IsMoved b b = record {
      filed = filed;
      whole = whole;
      aligned = aligned;
      weight = λ w additive. refl;
    } in
    file-IsEnqueued gap b bound off _ _ small
      (absorb-IsMoved (length f.elements) b off size f start) apart
      (absorb-positive (length f.elements) off size f positive)
