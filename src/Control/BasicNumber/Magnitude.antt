-- ===== src/Control/BasicNumber/Magnitude.antt =====
-- `decimalOrder` of src/Processors/ControlStorage/BasicNumber.cpp finds the power of ten below a
-- quotient.
use native.Mathlib.Nat.{mul-le-mul_right, mul-lt-mul_of_pos_right, mul_assoc}
use sim.Base.{
  leb, ℕ, zero, suc, ◌+◌, ◌-◌, ◌*◌, ◌≤◌, ◌<◌, ltb, ◌≡◌, ◌⊎◌, inl, inr, refl, sym, ap, ap₂, subst,
  ◌∙◌, arith, if-property,
}
use sim.Base.Int.{ℤ, pos, negsuc, ◌-ℤ◌}
use sim.Control.BasicNumber.{power10, correct_order, decimal_order}

pub power10-suc : (n : ℕ) → power10 (suc n) ≡ power10 n * 10
unfolding power10
power10-suc n = refl

pub power10-add : (m n : ℕ) → power10 (m + n) ≡ power10 m * power10 n
unfolding power10
power10-add m zero = ground arith
power10-add m (suc n) =
    let index : m + suc n ≡ suc (m + n) = omega arith in
    ap power10 index ∙ ap (λ p. p * 10) (power10-add m n) ∙ mul_assoc (power10 m) (power10 n) 10

pub power10_pos : (n : ℕ) → 0 < power10 n
unfolding power10
power10_pos zero = omega arith
power10_pos (suc n) = omega (arith, power10_pos n)

-- The power of ten at or below the quotient.
abbrev pub IsLeading : (numerator denominator : ℕ) → ℤ → Type 0
IsLeading n d (pos t) = (d * power10 t ≤ n) × (n < d * power10 (suc t))
IsLeading n d (negsuc k) = (d ≤ n * power10 (suc k)) × (n * power10 k < d)

-- A number with so many digits behind the first.
abbrev pub Spans : ℕ → ℕ → Type 0
Spans n a = (power10 a ≤ n) × (n < power10 (suc a))

-- A number times a power spans that many digits more.
times_power :
    (n a k : ℕ)
    → Spans n a
    → (power10 (a + k) ≤ n * power10 k) × (n * power10 k < power10 (suc a + k))
times_power n a k (low, high) = (
  subst (λ p. p ≤ n * power10 k) (sym (power10-add a k)) (mul-le-mul_right (power10 k) low),
  subst (λ p. n * power10 k < p) (sym (power10-add (suc a) k))
      (mul-lt-mul_of_pos_right high (power10_pos k)),
)

pos_step : (t : ℕ) → pos (suc t) -ℤ pos 1 ≡ pos t
unfolding ◌-ℤ◌
pos_step t = ground arith

negsuc_step : (k : ℕ) → negsuc k -ℤ pos 1 ≡ negsuc (suc k)
unfolding ◌-ℤ◌
negsuc_step k = ground arith

-- The step down when the estimate is one too high.
step_down :
    (n d t b : ℕ) → Spans d b → Spans n (b + t) → n < d * power10 t → IsLeading n d (pos t -ℤ pos 1)
unfolding ◌-ℤ◌ power10
step_down n d zero b ds ns less =
    let same : b + 0 ≡ b = omega arith in
    let low : power10 b ≤ n = subst (λ p. power10 p ≤ n) same ns.0 in
    (omega (arith, ds.1), omega arith)
step_down n d (suc t) b ds ns less =
    let index : suc b + t ≡ b + suc t = omega arith in
    let top = subst (λ p. d * power10 t < power10 p) index (times_power d b t ds).1 in
    subst (IsLeading n d) (sym (pos_step t)) (omega (arith, ns.0), less)

correct_order-above :
    (n d t b : ℕ) → Spans d b → Spans n (b + t) → IsLeading n d (correct_order n d (pos t))
unfolding correct_order
correct_order-above n d t b ds ns =
    let index : b + suc t ≡ suc (b + t) = omega arith in
    let low = subst (λ p. power10 p ≤ d * power10 (suc t)) index (times_power d b (suc t) ds).0 in
    if-property (IsLeading n d) (ltb n (d * power10 t)) _ _
      (λ less. step_down n d t b ds ns (ground arith))
      (λ enough. (ground arith, omega (arith, ns.1)))

correct_order-below :
    (n d k a : ℕ) → Spans n a → Spans d (a + suc k) → IsLeading n d (correct_order n d (negsuc k))
unfolding correct_order
correct_order-below n d k a ns ds =
    let index : suc a + k ≡ a + suc k = omega arith in
    let high = subst (λ p. n * power10 k < power10 p) index (times_power n a k ns).1 in
    let index' : a + suc (suc k) ≡ suc (a + suc k) = omega arith in
    let low =
      subst (λ p. power10 p ≤ n * power10 (suc (suc k))) index'
        (times_power n a (suc (suc k)) ns).0 in
    if-property (IsLeading n d) (ltb (n * power10 (suc k)) d) _ _
      (λ less. subst (IsLeading n d) (sym (negsuc_step k)) (omega (arith, ds.1), ground arith))
      (λ enough. (ground arith, omega (arith, ds.0)))

pub difference :
    (a b : ℕ)
    → ((t : ℕ) × (a ≡ b + t) × (pos a -ℤ pos b ≡ pos t))
      ⊎ ((k : ℕ) × (b ≡ a + suc k) × (pos a -ℤ pos b ≡ negsuc k))
unfolding ◌-ℤ◌
difference a b =
    if-property
      (λ z. ((t : ℕ) × (a ≡ b + t) × (z ≡ pos t)) ⊎ ((k : ℕ) × (b ≡ a + suc k) × (z ≡ negsuc k)))
      (leb (0 + b) (a + 0)) _ _ (λ above. inl (a - b, ground arith, ground arith))
      (λ below. inr (b - a - 1, ground arith, ground arith))

-- Of a length that counts the digits behind the first, too.
decimal_order-IsLeading :
    (n d a b : ℕ)
    → Spans n a
    → Spans d b
    → IsLeading n d (correct_order n d (pos (suc a) -ℤ pos (suc b)))
decimal_order-IsLeading n d a b ns ds = elim (difference (suc a) (suc b)) [
  | inl (t, above, e) ↦
      subst (λ z. IsLeading n d (correct_order n d z)) (sym e)
        (correct_order-above n d t b ds (subst (Spans n) (omega arith) ns))
  | inr (k, below, e) ↦
      subst (λ z. IsLeading n d (correct_order n d z)) (sym e)
        (correct_order-below n d k a ns (subst (Spans d) (omega arith) ds))
]

module _ (text_length : ℕ → ℕ)
    (lengths : (n : ℕ) → 0 < n → (0 < text_length n) × Spans n (text_length n - 1)) where
  -- The order is the power of ten at or below the quotient, when the length of a number's text
  -- counts its digits.
  pub decimal_order-finds :
      (n d : ℕ) → 0 < n → 0 < d → IsLeading n d (decimal_order text_length n d)
  unfolding decimal_order
  decimal_order-finds n d some_n some_d =
      let (long_n, ns) = lengths n some_n in
      let (long_d, ds) = lengths d some_d in
      subst (λ z. IsLeading n d (correct_order n d z))
        (ap₂ (λ a b. pos a -ℤ pos b) (omega arith) (omega arith))
        (decimal_order-IsLeading n d (text_length n - 1) (text_length d - 1) ns ds)
