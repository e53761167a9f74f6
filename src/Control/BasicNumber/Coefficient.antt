-- ===== src/Control/BasicNumber/Coefficient.antt =====
-- The coefficient of `quantize` of src/Processors/ControlStorage/BasicNumber.cpp has the digits of
-- its precision.
use native.Mathlib.Nat.{
  mul-le-mul_right, mul-lt-mul_of_pos_right, mul_assoc, mul_comm, mul_left_comm, mul-pos,
  le-div_iff_mul-le, div-lt_iff_lt-mul,
}
use sim.Base.{
  ℕ, suc, ◌+◌, ◌*◌, ◌/◌, ◌%◌, ◌≤◌, ◌<◌, leb, ◌==◌, ◌≡◌, inl, inr, refl, sym, ap, subst, ◌∙◌, arith,
  if-property,
}
use sim.Base.Int.{ℤ, pos, negsuc, ◌-ℤ◌}
use sim.Control.BasicNumber.{power10, carry_order, round_quotient, coefficient_of}
use sim.Control.BasicNumber.Magnitude.{
  power10-suc, power10-add, power10_pos, IsLeading, Spans, difference,
}

-- The quotient has so many digits behind the first.
abbrev InDecade : (digits numerator denominator : ℕ) → Type 0
InDecade c n d = (power10 c * d ≤ n) × (n < power10 (suc c) * d)

-- The rounded quotient has, or is the next power of ten.
abbrev IsRounded : (digits coefficient : ℕ) → Type 0
IsRounded c coefficient = (power10 c ≤ coefficient) × (coefficient ≤ power10 (suc c))

round_quotient-IsRounded : (c n d : ℕ) → 0 < d → InDecade c n d → IsRounded c (round_quotient n d)
unfolding round_quotient
round_quotient-IsRounded c n d some_d (low, high) =
    let below : power10 c ≤ n / d = (le-div_iff_mul-le some_d).1 low in
    let above : n / d < power10 (suc c) = (div-lt_iff_lt-mul some_d).1 high in
    if-property (IsRounded c) (leb d (n % d * 2)) _ _ (λ up. (omega arith, omega arith))
      (λ down. (omega arith, omega arith))

-- A power moved from the one side to the other.
pub moved : (d t s : ℕ) → d * power10 t * power10 s ≡ power10 (t + s) * d
moved d t s =
    mul_assoc d (power10 t) (power10 s)
    ∙ ap (λ p. d * p) (sym (power10-add t s))
    ∙ mul_comm d (power10 (t + s))

scaled_up : (n d t s : ℕ) → IsLeading n d (pos t) → InDecade (t + s) (n * power10 s) d
scaled_up n d t s (low, high) =
    let index : suc t + s ≡ suc (t + s) = omega arith in
    (
      subst (λ p. p ≤ n * power10 s) (moved d t s) (mul-le-mul_right (power10 s) low),
      subst (λ p. n * power10 s < p) (moved d (suc t) s ∙ ap (λ k. power10 k * d) index)
          (mul-lt-mul_of_pos_right high (power10_pos s)),
    )

le_across : {a b a' b' : ℕ} → a ≡ a' → b ≡ b' → a ≤ b → a' ≤ b'
le_across e f h = omega arith

lt_across : {a b a' b' : ℕ} → a ≡ a' → b ≡ b' → a < b → a' < b'
lt_across e f h = omega arith

scaled_fraction : (n d k c : ℕ) → IsLeading n d (negsuc k) → InDecade c (n * power10 (c + suc k)) d
scaled_fraction n d k c (low, high) =
    let index : suc k + c ≡ c + suc k = omega arith in
    let index' : k + suc c ≡ c + suc k = omega arith in
    let grown : n * power10 (suc k) * power10 c ≡ n * power10 (c + suc k) =
      mul_assoc n (power10 (suc k)) (power10 c)
      ∙ ap (λ p. n * p) (sym (power10-add (suc k) c) ∙ ap power10 index) in
    let grown' : n * power10 k * power10 (suc c) ≡ n * power10 (c + suc k) =
      mul_assoc n (power10 k) (power10 (suc c))
      ∙ ap (λ p. n * p) (sym (power10-add k (suc c)) ∙ ap power10 index') in
    (
      le_across (mul_comm d (power10 c)) grown (mul-le-mul_right (power10 c) low),
      lt_across grown' (mul_comm d (power10 (suc c)))
          (mul-lt-mul_of_pos_right high (power10_pos (suc c))),
    )

split : (d c s : ℕ) → d * power10 (c + s) ≡ power10 c * (d * power10 s)
split d c s = ap (λ p. d * p) (power10-add c s) ∙ mul_left_comm d (power10 c) (power10 s)

scaled_down :
    (n d t c s : ℕ) → t ≡ c + suc s → IsLeading n d (pos t) → InDecade c n (d * power10 (suc s))
scaled_down n d t c s e (low, high) =
    let index : suc t ≡ suc c + suc s = omega (arith, e) in
    (
      le_across (ap (λ k. d * power10 k) e ∙ split d c (suc s)) refl low,
      lt_across refl (ap (λ k. d * power10 k) index ∙ split d (suc c) (suc s)) high,
    )

minus_negsuc : (c k : ℕ) → pos c -ℤ negsuc k ≡ pos (c + suc k)
unfolding ◌-ℤ◌
minus_negsuc c k = ground arith

pub coefficient_of-IsRounded :
    (n d c : ℕ) (order : ℤ)
    → 0 < d
    → IsLeading n d order
    → IsRounded c (coefficient_of n d (pos c -ℤ order))
unfolding coefficient_of
coefficient_of-IsRounded n d c (negsuc k) some_d o =
    subst (λ z. IsRounded c (coefficient_of n d z)) (sym (minus_negsuc c k))
      (round_quotient-IsRounded c (n * power10 (c + suc k)) d some_d (scaled_fraction n d k c o))
coefficient_of-IsRounded n d c (pos t) some_d o = elim (difference c t) [
  | inl (s, above, e) ↦
      subst (λ z. IsRounded c (coefficient_of n d z)) (sym e)
        (round_quotient-IsRounded c (n * power10 s) d some_d
          (subst (λ k. InDecade k (n * power10 s) d) (sym above) (scaled_up n d t s o)))
  | inr (s, below, e) ↦
      subst (λ z. IsRounded c (coefficient_of n d z)) (sym e)
        (round_quotient-IsRounded c n (d * power10 (suc s)) (mul-pos some_d (power10_pos (suc s)))
          (scaled_down n d t c s below o))
]

-- The coefficient after the carry has just so many digits.
pub carry_order-Spans :
    (c : ℕ) (order : ℤ) (coefficient : ℕ)
    → IsRounded c coefficient
    → Spans (carry_order (power10 (suc c)) order coefficient).1 c
unfolding carry_order
carry_order-Spans c order coefficient (low, high) =
    let step = power10-suc c in
    if-property (λ (r : ℤ × ℕ). Spans r.1 c) (coefficient == power10 (suc c)) _ _
      (λ full. (ground arith, ground (arith, power10_pos c))) (λ fits. (omega arith, ground arith))
