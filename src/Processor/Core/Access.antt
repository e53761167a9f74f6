-- ===== src/Processor/Core/Access.antt =====
-- Operands whose bytes are all within reach: what a read and a write of one byte come to.
use sim.Base.{ℕ, ◌<◌, ◌≡◌, refl, Bool, true, false, some, arith}
use sim.Base.Digits.{value}
use sim.Machine.State.{Machine, real, translate, resolve, poke, atr_task_group0}
use sim.Machine.State.Access.{in_range-true, read_byte_ok, write_byte_ok}
use sim.Processor.Core.{
  Processor, no_abort, left, shift, operand_logical, operand_pact, operand_byte, read_operand,
  write_operand, aborted, unless_aborted,
}

-- The processor with other contents of main storage.
abbrev pub store : Processor → (ℕ → ℕ) → Processor
store p f = record p { machine = record p.machine { storage = f } }

abbrev pub bytes : Processor → ℕ → ℕ
bytes p = p.machine.storage

abbrev pub IsBytes : (ℕ → ℕ) → Type 0
IsBytes f = (x : ℕ) → f x < 256

-- The number that the `n` bytes of a field hold, the rightmost lowest.
abbrev pub number : (ℕ → ℕ) → (ℕ → ℕ) → ℕ → ℕ
number f a n = value (λ k. f (a k)) 0 n

-- The `n` bytes of an operand, from its address to the left, resolve to the real addresses `a 0`,
-- `a 1`, …, all of them in main storage; nothing has gone wrong yet.
pub record Field (p : Processor) (first : Bool) (n : ℕ) (a : ℕ → ℕ) : Type 0 where
  pub clear : p.abort ≡ no_abort
  pub granted :
      (i : ℕ)
      → i < n
      → (w : Bool)
      → resolve p.machine
          (shift (operand_logical first p) (left i))
          (operand_pact first p)
          atr_task_group0
          w
        ≡ real (a i)
  pub inside : (i : ℕ) → i < n → a i < p.machine.size

resolve-store :
    (m : Machine) (f : ℕ → ℕ) (l pact base : ℕ) (w : Bool)
    → resolve (record m { storage = f }) l pact base w ≡ resolve m l pact base w
unfolding resolve translate
resolve-store m f l pact base w = refl

-- What is stored has no say in where the bytes lie.
pub Field-store :
    (p : Processor) (first : Bool) (n : ℕ) (a : ℕ → ℕ) (f : ℕ → ℕ)
    → Field p first n a
    → Field (store p f) first n a
unfolding operand_logical operand_pact
Field-store p first n a f h = record {
  clear = h.clear;
  granted = λ i lt w. rw (resolve-store p.machine f) (h.granted i lt w);
  inside = h.inside;
}

module _ (p : Processor) (first : Bool) {n : ℕ} {a : ℕ → ℕ} (h : Field p first n a) (i : ℕ)
    (lt : i < n) where
  operand_byte_ok : (w : Bool) → operand_byte first (left i) w p ≡ (some (a i), p)
  unfolding operand_byte
  operand_byte_ok w =
      ground (arith, h.clear, h.granted i lt w, h.inside i lt, in_range-true p.machine (a i) 1)

  pub read_operand_ok : read_operand first (left i) p ≡ (bytes p (a i), p)
  unfolding read_operand
  read_operand_ok =
      ground (arith, operand_byte_ok false, read_byte_ok p.machine (a i) (h.inside i lt))

  pub write_operand_ok :
      (v : ℕ) → write_operand first (left i) v p ≡ store p (poke (bytes p) (a i) v)
  unfolding write_operand
  write_operand_ok v =
      ground (arith, operand_byte_ok true, write_byte_ok p.machine (a i) v (h.inside i lt))

-- The same, where the contents of storage have changed since.
module _ (p : Processor) (first : Bool) {n : ℕ} {a : ℕ → ℕ} (h : Field p first n a) (i : ℕ)
    (lt : i < n) (f : ℕ → ℕ) where
  pub read_stored : read_operand first (left i) (store p f) ≡ (f (a i), store p f)
  read_stored = read_operand_ok (store p f) first (Field-store p first n a f h) i lt

  pub write_stored : (v : ℕ) → write_operand first (left i) v (store p f) ≡ store p (poke f (a i) v)
  write_stored v = write_operand_ok (store p f) first (Field-store p first n a f h) i lt v

pub unless_aborted-store :
    (p : Processor) (f : ℕ → ℕ) (rest : Processor → Processor)
    → p.abort ≡ no_abort
    → unless_aborted (store p f) rest ≡ rest (store p f)
unfolding unless_aborted aborted
unless_aborted-store p f rest h = ground arith
