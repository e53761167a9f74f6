-- ===== src/Processor/Characters/Compare.antt =====
-- CLC compares two fields as the numbers, or the texts, that they hold.
use sim.Base.{
  ℕ, zero, suc, ◌+◌, ◌*◌, ◌^◌, ◌≤◌, ◌<◌, ◌≡◌, refl, sym, ap, ap₂, ◌∙◌, inl, inr, true, false,
  bit_and, bit_or, if◌then◌else◌, arith, ltb, ltb→lt, Bool-cases,
}
use native.Mathlib.Nat.{suc-mul, mul-le-mul_right}
use sim.Base.Digits.{value, value-lt, value-highest}
use sim.Processor.Core.{Processor, load_psr_of}
use sim.Processor.Core.Access.{IsBytes, number, bytes, Field, read_operand_ok, unless_aborted-store}
use sim.Processor.Characters.{
  Compared, less, same, more, count, compare_bytes, compare_loop, compare_characters, set_compare,
  condition_bit,
}

top_less : (u v x y limit : ℕ) → u < limit → x < y → u + x * limit < v + y * limit
top_less u v x y limit hu lt = omega (arith, suc-mul x limit, mul-le-mul_right limit lt)

compare_top :
    (u v x y limit : ℕ)
    → u < limit
    → v < limit
    → compare_bytes (u + x * limit) (v + y * limit)
      ≡ elim (compare_bytes x y) [ same ↦ compare_bytes u v | cmp ↦ cmp ]
unfolding compare_bytes
compare_top u v x y limit hu hv = elim (Bool-cases (ltb x y)) [
  | inl below ↦ ground (arith, top_less u v x y limit hu (ltb→lt x y below))
  | inr not_below ↦ elim (Bool-cases (ltb y x)) [
    | inl above ↦ ground (arith, top_less v u y x limit hv (ltb→lt y x above))
    | inr not_above ↦
        let equal : x ≡ y = ground arith in
        let scaled = ap (λ t. t * limit) equal in ground (arith, scaled)
  ]
]

compare_loop-suc :
    (p : Processor) (size : ℕ) (a b : ℕ → ℕ) (n : ℕ)
    → Field p true size a
    → Field p false size b
    → n < size
    → compare_loop (suc n) p ≡ elim (compare_bytes (bytes p (a n)) (bytes p (b n))) [
      | same ↦ compare_loop n p
      | cmp ↦ (cmp, p)
    ]
unfolding compare_loop
compare_loop-suc p size a b n h k lt =
    ground (arith, read_operand_ok p true h n lt, read_operand_ok p false k n lt)

decide_by :
    (c : Compared) (p : Processor) {u : Compared} {r : Compared × Processor}
    → r ≡ (u, p)
    → ◌≡◌ {A = Compared × Processor}
        (elim c [ same ↦ r | cmp ↦ (cmp, p) ])
        (elim c [ same ↦ u | cmp ↦ cmp ], p)
decide_by less p e = refl
decide_by same p e = e
decide_by more p e = refl

compare_loop-number :
    (p : Processor) (size : ℕ) (a b : ℕ → ℕ)
    → Field p true size a
    → Field p false size b
    → IsBytes (bytes p)
    → (n : ℕ) → n ≤ size
    → compare_loop n p ≡ (compare_bytes (number (bytes p) a n) (number (bytes p) b n), p)
compare_loop-number p size a b h k w zero le = unfold compare_loop value compare_bytes in refl
compare_loop-number p size a b h k w (suc n) le =
    let d = λ (j : ℕ). bytes p (a j) in
    let e = λ (j : ℕ). bytes p (b j) in
    let ih = compare_loop-number p size a b h k w n (omega arith) in
    let top =
      compare_top (value d 0 n) (value e 0 n) (d n) (e n) (256 ^ n)
        (value-lt d 0 n (λ j l u. w (a j))) (value-lt e 0 n (λ j l u. w (b j))) in
    compare_loop-suc p size a b n h k le
    ∙ decide_by (compare_bytes (d n) (e n)) p ih
    ∙ ap (λ c. (c, p)) (sym (ap₂ compare_bytes (value-highest d n) (value-highest e n) ∙ top))

-- The status byte of a comparison: Low, High or Equal in the place of the three conditions.
abbrev pub compared_status : ℕ → (x y : ℕ) → ℕ
compared_status psr x y =
    bit_or (bit_and psr 0xf8) (if ltb x y then 2 else if ltb y x then 4 else 1)

set_compare-status :
    (p : Processor) (x y : ℕ)
    → set_compare (compare_bytes x y) p ≡ load_psr_of p (compared_status p.machine.msp.psr x y)
unfolding set_compare compare_bytes condition_bit
set_compare-status p x y = elim (Bool-cases (ltb x y)) [
  | inl below ↦ rw below refl
  | inr not_below ↦ elim (Bool-cases (ltb y x)) [
    | inl above ↦ rw (not_below, above) refl
    | inr not_above ↦ rw (not_below, not_above) refl
  ]
]

-- CLC on operands within reach compares the two fields as unsigned numbers of q + 1 bytes. It loads
-- the status register with Low, High or Equal, as operand 1 is less than operand 2, more or the same,
-- and with the five other bits as they were, and changes nothing else.
pub compare_characters-number :
    (q : ℕ) (p : Processor) (a b : ℕ → ℕ)
    → Field p true (count q) a
    → Field p false (count q) b
    → IsBytes (bytes p)
    → compare_characters q p
      ≡ load_psr_of p (
          compared_status p.machine.msp.psr
            (number (bytes p) a (count q))
            (number (bytes p) b (count q)))
unfolding compare_characters
compare_characters-number q p a b h k w =
    rw (compare_loop-number p (count q) a b h k w (count q) (omega arith)) (
      unless_aborted-store p (bytes p)
        (set_compare (compare_bytes (number (bytes p) a (count q)) (number (bytes p) b (count q))))
        h.clear
      ∙ set_compare-status p (number (bytes p) a (count q)) (number (bytes p) b (count q)))
