-- ===== src/Processor/Characters/Move.antt =====
-- MVC: what a move leaves in storage, where the operands are apart and where they overlap.
use sim.Base.{
  ℕ, zero, suc, ◌+◌, ◌≤◌, ◌<◌, ◌≡◌, refl, ◌∙◌, ◌≢◌, inl, inr, true, false, arith, ◌==◌, ==_iff,
  Bool-cases,
}
use sim.Machine.State.{poke}
use sim.Processor.Core.{Processor}
use sim.Processor.Core.Access.{store, bytes, Field, read_stored, write_stored}
use sim.Processor.Characters.{count, move_loop, move_characters}

-- No two of the first `n` bytes of an operand share an address.
abbrev pub Distinct : ℕ → (ℕ → ℕ) → Type 0
Distinct n a = (j k : ℕ) → j < n → k < n → a j ≡ a k → j ≡ k

-- Two operands of `n` bytes share no address.
abbrev pub Apart : ℕ → (ℕ → ℕ) → (ℕ → ℕ) → Type 0
Apart n a b = (j k : ℕ) → j < n → k < n → a j ≢ b k

-- Nothing but the `n` bytes of the operand at `a` has changed.
abbrev pub SameOutside : ℕ → (ℕ → ℕ) → (ℕ → ℕ) → (ℕ → ℕ) → Type 0
SameOutside n a f g = (x : ℕ) → ((k : ℕ) → k < n → a k ≢ x) → g x ≡ f x

pub poke_self : (f : ℕ → ℕ) (x v : ℕ) → poke f x v x ≡ v
poke_self f x v = ground arith

pub poke-ne : (f : ℕ → ℕ) (x v y : ℕ) → x ≢ y → poke f x v y ≡ f y
poke-ne f x v y h = ground arith

-- The loop on the contents of storage alone.
move_bytes : (a b : ℕ → ℕ) → (ℕ → ℕ) → ℕ → ℕ → ℕ → ℕ
move_bytes a b f zero i = f
move_bytes a b f (suc n) i = move_bytes a b (poke f (a i) (f (b i))) n (i + 1)

move_loop-bytes :
    (p : Processor) (size : ℕ) (a b : ℕ → ℕ)
    → Field p true size a
    → Field p false size b
    → (n i : ℕ) (f : ℕ → ℕ) → i + n ≤ size
    → move_loop n i (store p f) ≡ store p (move_bytes a b f n i)
unfolding move_loop move_bytes
move_loop-bytes p size a b h k zero i f le = refl
move_loop-bytes p size a b h k (suc n) i f le =
    rw (read_stored p false k i (omega arith) f, write_stored p true h i (omega arith) f (f (b i)))
      (move_loop-bytes p size a b h k n (i + 1) (poke f (a i) (f (b i))) (omega arith))

module _ (size : ℕ) (a b : ℕ → ℕ) where
  move_bytes-outside :
      (n i : ℕ) (f : ℕ → ℕ) (x : ℕ)
      → i + n ≤ size
      → ((k : ℕ) → i ≤ k → k < size → a k ≢ x)
      → move_bytes a b f n i x ≡ f x
  unfolding move_bytes
  move_bytes-outside zero i f x le h = refl
  move_bytes-outside (suc n) i f x le h =
      move_bytes-outside n (i + 1) (poke f (a i) (f (b i))) x (omega arith)
        (λ k l u. h k (omega arith) u)
      ∙ poke-ne f (a i) (f (b i)) x (h i (omega arith) (omega arith))

  move_bytes-copies :
      Distinct size a
      → Apart size a b
      → (n i : ℕ) (f : ℕ → ℕ) → i + n ≡ size
      → (k : ℕ) → i ≤ k
      → k < size
      → move_bytes a b f n i (a k) ≡ f (b k)
  unfolding move_bytes
  move_bytes-copies d s zero i f e k l u = absurd (omega arith)
  move_bytes-copies d s (suc n) i f e k l u = elim (Bool-cases (k == i)) [
    | inl here ↦
        let same = (==_iff k i).0 here in
        move_bytes-outside n (i + 1) (poke f (a i) (f (b i))) (a k) (omega arith)
          (λ j low high eq. absurd (omega (arith, d j k high u eq)))
        ∙ rw same (poke_self f (a i) (f (b i)))
    | inr later ↦
        let ne : i ≢ k = ground arith in
        move_bytes-copies d s n (i + 1) (poke f (a i) (f (b i))) (omega arith) k (omega arith) u
        ∙ poke-ne f (a i) (f (b i)) (b k) (s i k (omega arith) u)
  ]

  -- Operand 2 one byte to the right of operand 1: each byte read is the one just written.
  move_bytes-fills :
      (v : ℕ)
      → ((k : ℕ) → k + 1 < size → b (k + 1) ≡ a k)
      → (n i : ℕ) (f : ℕ → ℕ) → i + n ≡ size
      → (i < size → f (b i) ≡ v)
      → ((k : ℕ) → k < i → f (a k) ≡ v)
      → (k : ℕ) → k < size
      → move_bytes a b f n i (a k) ≡ v
  unfolding move_bytes
  move_bytes-fills v next zero i f e h done k u = done k (omega arith)
  move_bytes-fills v next (suc n) i f e h done k u =
      let now = h (omega arith) in
      move_bytes-fills v next n (i + 1) (poke f (a i) (f (b i))) (omega arith)
        (λ lt. ground (arith, now, next i lt)) (λ j lt. ground (arith, now, done j)) k u

-- MVC with operands that share no byte: when every byte is within reach, operand 2's bytes are in
-- operand 1's place, and nothing else in storage or in the processor has changed.
pub move_characters-copies :
    (q : ℕ) (p : Processor) (a b : ℕ → ℕ)
    → Field p true (count q) a
    → Field p false (count q) b
    → Distinct (count q) a
    → Apart (count q) a b
    → (f : ℕ → ℕ) × (move_characters q p ≡ store p f)
      × ((k : ℕ) → k < count q → f (a k) ≡ bytes p (b k))
      × SameOutside (count q) a (bytes p) f
unfolding move_characters
move_characters-copies q p a b h k d s = (
  move_bytes a b (bytes p) (count q) 0,
  move_loop-bytes p (count q) a b h k (count q) 0 (bytes p) (omega arith),
  λ j u. move_bytes-copies (count q) a b d s (count q) 0 (bytes p) (omega arith) j (omega arith) u,
  λ x out.
      move_bytes-outside (count q) a b (count q) 0 (bytes p) x (omega arith) (λ j l u. out j u),
)

-- MVC with operand 2 one byte to the right of operand 1, the idiom that clears a field: the byte at
-- operand 2 is propagated to every byte of operand 1.
move_characters-fills :
    (q : ℕ) (p : Processor) (a b : ℕ → ℕ)
    → Field p true (count q) a
    → Field p false (count q) b
    → ((k : ℕ) → k < q → b (k + 1) ≡ a k)
    → (f : ℕ → ℕ) × (move_characters q p ≡ store p f)
      × ((k : ℕ) → k < count q → f (a k) ≡ bytes p (b 0))
      × SameOutside (count q) a (bytes p) f
unfolding move_characters
move_characters-fills q p a b h k next = (
  move_bytes a b (bytes p) (count q) 0,
  move_loop-bytes p (count q) a b h k (count q) 0 (bytes p) (omega arith),
  λ j u.
      move_bytes-fills (count q) a b (bytes p (b 0)) (λ i lt. next i (omega arith)) (count q) 0
        (bytes p) (omega arith) (λ lt. refl) (λ i lt. absurd (omega arith)) j u,
  λ x out.
      move_bytes-outside (count q) a b (count q) 0 (bytes p) x (omega arith) (λ j l u. out j u),
)
