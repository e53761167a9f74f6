-- ===== src/Control/BasicNumber/Arithmetic.antt =====
-- The arithmetic of src/Processors/ControlStorage/BasicNumber.cpp on any two numbers.
use native.Mathlib.Nat.{mul-pos}
use sim.Base.{
  ℕ, zero, suc, ◌+◌, ◌-◌, ◌*◌, ◌<◌, false, not, ◌||◌, List, [], ◌∷◌, Option, ◌≡◌, arith,
  if-property,
}
use sim.Base.Int.{ℤ, pos, negsuc}
use sim.Control.BasicNumber.{
  Condition, BasicNumber, all_zero, is_zero, mantissa_of, mantissa, scaled, magnitude,
  same_precision, add, subtract, multiply, divide, negated,
}
use sim.Control.BasicNumber.Magnitude.{power10_pos, Spans}
use sim.Control.BasicNumber.Quantize.{IsStored, zero_number-IsStored, quantize-IsStored}

scaled-denominator : (m : ℕ) (power : ℤ) → 0 < (scaled m power).denominator
unfolding scaled
scaled-denominator m (pos power) = omega arith
scaled-denominator m (negsuc n) = power10_pos (suc n * 2)

scaled-numerator : (m : ℕ) (power : ℤ) → 0 < m → 0 < (scaled m power).numerator
unfolding scaled
scaled-numerator m (pos power) some_m = mul-pos some_m (power10_pos (power * 2))
scaled-numerator m (negsuc n) some_m = some_m

mantissa_of_pos : (answer : ℕ) (ds : List ℕ) → 0 < answer → 0 < mantissa_of answer ds
unfolding mantissa_of
mantissa_of_pos answer [] h = h
mantissa_of_pos answer (d ∷ ds) h = mantissa_of_pos (answer * 100 + d) ds (omega arith)

mantissa_of-all_zero : (ds : List ℕ) → all_zero ds ≡ false → 0 < mantissa_of 0 ds
unfolding mantissa_of
mantissa_of-all_zero [] h = cc
mantissa_of-all_zero (zero ∷ ds) h = mantissa_of-all_zero ds h
mantissa_of-all_zero (suc d ∷ ds) h = mantissa_of_pos (0 * 100 + suc d) ds (omega arith)

magnitude-denominator : (n : BasicNumber) → 0 < (magnitude n).denominator
unfolding magnitude
magnitude-denominator n = scaled-denominator (mantissa n) _

magnitude-numerator : (n : BasicNumber) → is_zero n ≡ false → 0 < (magnitude n).numerator
unfolding magnitude mantissa is_zero
magnitude-numerator n h =
    scaled-numerator (mantissa_of 0 n.digits) _ (mantissa_of-all_zero n.digits h)

module _ (text_length : ℕ → ℕ)
    (lengths : (n : ℕ) → 0 < n → (0 < text_length n) × Spans n (text_length n - 1))
    (a b : BasicNumber) where
  add-IsStored : IsStored a.precision (add text_length a b).1
  unfolding add
  add-IsStored =
      if-property (λ (r : Condition × Option BasicNumber). IsStored a.precision r.1)
        (not (same_precision a.precision b.precision)) _ _
        (λ other. zero_number-IsStored a.precision)
        (λ same.
          quantize-IsStored text_length lengths _ _ false a.precision
            (mul-pos (magnitude-denominator a) (magnitude-denominator b)))

  multiply-IsStored : IsStored a.precision (multiply text_length a b).1
  unfolding multiply
  multiply-IsStored =
      if-property (λ (r : Condition × Option BasicNumber). IsStored a.precision r.1)
        (not (same_precision a.precision b.precision)) _ _
        (λ other. zero_number-IsStored a.precision)
        (λ same.
          quantize-IsStored text_length lengths _ _ _ a.precision
            (mul-pos (magnitude-denominator a) (magnitude-denominator b)))

  divide-IsStored : IsStored a.precision (divide text_length a b).1
  unfolding divide
  divide-IsStored =
      if-property (λ (r : Condition × Option BasicNumber). IsStored a.precision r.1)
        (not (same_precision a.precision b.precision) || is_zero b) _ _
        (λ other. zero_number-IsStored a.precision)
        (λ same.
          quantize-IsStored text_length lengths _ _ _ a.precision
            (mul-pos (magnitude-denominator a) (magnitude-numerator b (ground arith))))

module _ (text_length : ℕ → ℕ)
    (lengths : (n : ℕ) → 0 < n → (0 < text_length n) × Spans n (text_length n - 1)) where
  -- Every operation on any two numbers answers a number in the guest's form, of the first one's
  -- precision, whatever the condition is: the decode whose answer the code takes unseen does not
  -- fail. The length of a number's text counts its decimal digits.
  pub arithmetic-IsStored :
      (a b : BasicNumber)
      → IsStored a.precision (add text_length a b).1
        × IsStored a.precision (subtract text_length a b).1
        × IsStored a.precision (multiply text_length a b).1
        × IsStored a.precision (divide text_length a b).1
  unfolding subtract
  arithmetic-IsStored a b = (
    add-IsStored text_length lengths a b,
    add-IsStored text_length lengths a (negated b),
    multiply-IsStored text_length lengths a b,
    divide-IsStored text_length lengths a b,
  )
