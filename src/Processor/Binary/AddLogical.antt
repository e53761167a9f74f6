-- ===== src/Processor/Binary/AddLogical.antt =====
-- The loop of ALC and SLC over the bytes of storage: digits in base 256 with a carry.
use sim.Base.{
  ℕ, zero, suc, ◌+◌, ◌-◌, ◌*◌, ◌%◌, ◌^◌, ◌≤◌, ◌<◌, ◌≡◌, refl, ap, ◌∙◌, ◌≢◌, ◌↔◌, Bool, true, false,
  not, arith, ltb, ◌==◌, if◌then◌else◌,
}
use native.Mathlib.Nat.{pow-suc}
use sim.Base.Digits.{value, value-ext}
use sim.Machine.State.{poke}
use sim.Processor.Core.{Processor, load_psr_of}
use sim.Processor.Core.Access.{
  IsBytes, store, bytes, Field, unless_aborted-store, read_stored, write_stored,
}
use sim.Processor.Characters.{count}
use sim.Processor.Characters.Move.{Distinct, poke_self, poke-ne}
use sim.Processor.Binary.{Sum, add_loop, add_status, add_logical}

-- Operand 2 may be apart from operand 1, or the same field, or lie to its right: a byte of it that
-- is read later has not been written before.
abbrev pub ReadFirst : ℕ → (ℕ → ℕ) → (ℕ → ℕ) → Type 0
ReadFirst n a b = (j k : ℕ) → j < k → k < n → a j ≢ b k

-- What is added for a byte of operand 2.
abbrev pub addend : Bool → ℕ → ℕ
addend subtract v = if subtract then 255 - v else v

abbrev pub total : Bool → (ℕ → ℕ) → (ℕ → ℕ) → (ℕ → ℕ) → ℕ → ℕ → ℕ
total subtract a b f i c = f (a i) + addend subtract (f (b i)) + c

abbrev pub next : ℕ → Sum → Sum
next t s = record {
  carry = if ltb 0xff t then 1 else 0;
  non_zero = if not (t % 256 == 0) then true else s.non_zero;
}

-- The loop on the contents of storage alone.
unfoldable pub add_bytes : Bool → (a b : ℕ → ℕ) → ℕ → ℕ → Sum → (ℕ → ℕ) → Sum × (ℕ → ℕ)
add_bytes subtract a b zero i s f = (s, f)
add_bytes subtract a b (suc n) i s f =
    let t = total subtract a b f i s.carry in
    add_bytes subtract a b n (i + 1) (next t s) (poke f (a i) (t % 256))

pub add_loop-bytes :
    (p : Processor) (size : ℕ) (a b : ℕ → ℕ) (subtract : Bool)
    → Field p true size a
    → Field p false size b
    → (n i : ℕ) (s : Sum) (f : ℕ → ℕ) → i + n ≤ size
    → add_loop subtract n i s (store p f)
      ≡ ((add_bytes subtract a b n i s f).0, store p (add_bytes subtract a b n i s f).1)
unfolding add_loop add_bytes
add_loop-bytes p size a b subtract h k zero i s f le = refl
add_loop-bytes p size a b subtract h k (suc n) i s f le =
    let t = total subtract a b f i s.carry in
    rw
      (
        read_stored p true h i (omega arith) f,
        read_stored p false k i (omega arith) f,
        write_stored p true h i (omega arith) f (t % 256),
      )
      (add_loop-bytes p size a b subtract h k n (i + 1) (next t s) (poke f (a i) (t % 256))
        (omega arith))

module _ (size : ℕ) (a b : ℕ → ℕ) (subtract : Bool) where
  pub add_bytes-outside :
      (n i : ℕ) (s : Sum) (f : ℕ → ℕ) (x : ℕ)
      → i + n ≤ size
      → ((k : ℕ) → i ≤ k → k < size → a k ≢ x)
      → (add_bytes subtract a b n i s f).1 x ≡ f x
  unfolding add_bytes
  add_bytes-outside zero i s f x le h = refl
  add_bytes-outside (suc n) i s f x le h =
      let t = total subtract a b f i s.carry in
      add_bytes-outside n (i + 1) (next t s) (poke f (a i) (t % 256)) x (omega arith)
        (λ k l u. h k (omega arith) u)
      ∙ poke-ne f (a i) (t % 256) x (h i (omega arith) (omega arith))

  -- The sum of the two numbers and the carry in, with the carry out as a further digit.
  pub add_bytes-value :
      Distinct size a
      → ReadFirst size a b
      → (n i : ℕ) (s : Sum) (f : ℕ → ℕ) → i + n ≤ size
      → IsBytes f
      → s.carry ≤ 1
      → let (s', g) = add_bytes subtract a b n i s f in
        value (λ k. g (a k)) i n + s'.carry * 256 ^ n
        ≡ value (λ k. f (a k)) i n + value (λ k. addend subtract (f (b k))) i n + s.carry
  unfolding add_bytes value
  add_bytes-value d r zero i s f le h c = omega arith
  add_bytes-value d r (suc n) i s f le h c =
      let t = total subtract a b f i s.carry in
      let f1 = poke f (a i) (t % 256) in
      let rest = add_bytes subtract a b n (i + 1) (next t s) f1 in
      let digit : rest.1 (a i) ≡ t % 256 =
        add_bytes-outside n (i + 1) (next t s) f1 (a i) (omega arith)
          (λ k l u eq. absurd (omega (arith, d k i u (omega arith) eq)))
        ∙ poke_self f (a i) (t % 256) in
      let small : t < 512 = ground (arith, h (a i), h (b i)) in
      let carried : (next t s).carry * 256 + t % 256 ≡ t = ground arith in
      let ih =
        add_bytes-value d r n (i + 1) (next t s) f1 (omega arith) (λ x. ground (arith, h x))
          (ground arith) in
      let same_a : value (λ k. f1 (a k)) (i + 1) n ≡ value (λ k. f (a k)) (i + 1) n =
        value-ext _ _ (i + 1) n (λ k l u.
          poke-ne f (a i) (t % 256) (a k)
            (λ eq. absurd (omega (arith, d i k (omega arith) (omega arith) eq)))) in
      let same_b : value (λ k. addend subtract (f1 (b k))) (i + 1) n
          ≡ value (λ k. addend subtract (f (b k))) (i + 1) n =
        value-ext _ _ (i + 1) n (λ k l u.
          ap (addend subtract)
            (poke-ne f (a i) (t % 256) (b k) (r i k (omega arith) (omega arith)))) in
      let power = ap (λ k. rest.0.carry * k) (pow-suc 256 n) in
      omega (arith, digit, carried, ih, same_a, same_b, power)

  pub add_bytes-carry :
      (n i : ℕ) (s : Sum) (f : ℕ → ℕ) → s.carry ≤ 1 → (add_bytes subtract a b n i s f).0.carry ≤ 1
  unfolding add_bytes
  add_bytes-carry zero i s f c = c
  add_bytes-carry (suc n) i s f c =
      let t = total subtract a b f i s.carry in
      add_bytes-carry n (i + 1) (next t s) (poke f (a i) (t % 256)) (ground arith)

  -- The flag tells whether any byte of the result is not zero.
  pub add_bytes-non_zero :
      Distinct size a
      → (n i : ℕ) (s : Sum) (f : ℕ → ℕ) → i + n ≤ size
      → let (s', g) = add_bytes subtract a b n i s f in
        (s'.non_zero ≡ false) ↔ ((s.non_zero ≡ false) × (value (λ k. g (a k)) i n ≡ 0))
  unfolding add_bytes value
  add_bytes-non_zero d zero i s f le = (λ e. (e, refl), λ e. e.0)
  add_bytes-non_zero d (suc n) i s f le =
      let t = total subtract a b f i s.carry in
      let f1 = poke f (a i) (t % 256) in
      let rest = add_bytes subtract a b n (i + 1) (next t s) f1 in
      let digit : rest.1 (a i) ≡ t % 256 =
        add_bytes-outside n (i + 1) (next t s) f1 (a i) (omega arith)
          (λ k l u eq. absurd (omega (arith, d k i u (omega arith) eq)))
        ∙ poke_self f (a i) (t % 256) in
      let ih = add_bytes-non_zero d n (i + 1) (next t s) f1 (omega arith) in
      (λ e. ground (arith, ih.0 e, digit), λ e. ih.1 (ground (arith, digit)))

pub add_bytes-IsBytes :
    (a b : ℕ → ℕ) (subtract : Bool) (n i : ℕ) (s : Sum) (f : ℕ → ℕ)
    → IsBytes f
    → IsBytes (add_bytes subtract a b n i s f).1
unfolding add_bytes
add_bytes-IsBytes a b subtract zero i s f h = h
add_bytes-IsBytes a b subtract (suc n) i s f h =
    let t = total subtract a b f i s.carry in
    add_bytes-IsBytes a b subtract n (i + 1) (next t s) (poke f (a i) (t % 256))
      (λ x. ground (arith, h x))

abbrev pub start : Bool → Sum
start subtract = record { carry = if subtract then 1 else 0; non_zero = false }

pub add_logical-bytes :
    (q : ℕ) (subtract : Bool) (p : Processor) (a b : ℕ → ℕ)
    → Field p true (count q) a
    → Field p false (count q) b
    → let (s, f) = add_bytes subtract a b (count q) 0 (start subtract) (bytes p) in
      add_logical q subtract p ≡ load_psr_of (store p f) (add_status p.machine.msp.psr subtract s)
unfolding add_logical
add_logical-bytes q subtract p a b h k =
    let e =
      add_loop-bytes p (count q) a b subtract h k (count q) 0 (start subtract) (bytes p)
        (omega arith) in
    let out = add_bytes subtract a b (count q) 0 (start subtract) (bytes p) in
    rw e (
      unless_aborted-store p out.1
        (λ r. load_psr_of r (add_status r.machine.msp.psr subtract out.0)) h.clear)
