-- ===== src/Control/BasicNumber/Quantize.antt =====
-- `quantize` of src/Processors/ControlStorage/BasicNumber.cpp: what it stores is a number.
use sim.Base.{
  ℕ, zero, suc, ◌-◌, ◌*◌, ◌/◌, ◌%◌, ◌≤◌, ◌<◌, Bool, false, not, ltb, ◌==◌, none, some, List, [],
  ◌∷◌, ◌++◌, Option, length, get_or, replicate, ◌≡◌, ◌⊎◌, inl, inr, refl, sym, ap, subst, ◌∙◌,
  arith, if-property, length-append,
}
use sim.Base.Int.{pos_part, ℤ, pos, negsuc, ◌+ℤ◌, ◌-ℤ◌}
use sim.Control.BasicNumber.{
  Precision, short, long, pairs, significant_digits, Condition, BasicNumber, zero_number,
  exceeds_base, decode, power10, carry_order, coefficient_of, base_exponent, store_digits,
  some_number, store_at, store, decimal_order, quantize_magnitude, quantize,
}
use sim.Control.BasicNumber.Code.{
  IsNumber, IsCode, lead_byte, lead_byte-lt, decode_digits-decoded, decode-width, encode-decode,
}
use sim.Control.BasicNumber.Magnitude.{Spans, decimal_order-finds}
use sim.Control.BasicNumber.Coefficient.{coefficient_of-IsRounded, carry_order-Spans}

-- The coefficient is moved by one place or two.
shift_range :
    (order : ℤ)
    → (order +ℤ pos 3 -ℤ (base_exponent order +ℤ base_exponent order) ≡ pos 1)
      ⊎ (order +ℤ pos 3 -ℤ (base_exponent order +ℤ base_exponent order) ≡ pos 2)
unfolding base_exponent ◌+ℤ◌ ◌-ℤ◌
shift_range (pos order) = ground arith
shift_range (negsuc n) = ground arith

length-store_digits : (count stored : ℕ) → length (store_digits count stored) ≡ count
unfolding store_digits
length-store_digits zero stored = refl
length-store_digits (suc n) stored = omega (
  arith,
  length-append (store_digits n (stored / 100)) (stored % 100 ∷ []),
  length-store_digits n (stored / 100),
)

exceeds_base-append :
    (ds : List ℕ) (d : ℕ) → exceeds_base ds ≡ false → d < 100 → exceeds_base (ds ++ d ∷ []) ≡ false
exceeds_base-append [] d h small = ground arith
exceeds_base-append (x ∷ xs) d h small = ground (arith, exceeds_base-append xs d)

exceeds_base-store_digits : (count stored : ℕ) → exceeds_base (store_digits count stored) ≡ false
unfolding store_digits
exceeds_base-store_digits zero stored = refl
exceeds_base-store_digits (suc n) stored =
    exceeds_base-append (store_digits n (stored / 100)) (stored % 100)
      (exceeds_base-store_digits n (stored / 100)) (omega arith)

first_of_append : (ds : List ℕ) (d : ℕ) → 0 < length ds → get_or (ds ++ d ∷ []) 0 0 ≡ get_or ds 0 0
first_of_append [] d h = absurd (omega arith)
first_of_append (x ∷ xs) d h = refl

-- The first of the digits is not zero when the number reaches it.
store_digits-first :
    (n stored : ℕ)
    → power10 (n * 2) ≤ stored
    → stored < power10 (n * 2) * 100
    → 0 < get_or (store_digits (suc n) stored) 0 0
unfolding store_digits power10
store_digits-first zero stored low high = omega arith
store_digits-first (suc n) stored low high =
    let index : suc n * 2 ≡ suc (suc (n * 2)) = omega arith in
    let power : power10 (suc n * 2) ≡ power10 (n * 2) * 100 = ap power10 index ∙ omega arith in
    subst (λ d. 0 < d)
      (sym (
        first_of_append (store_digits (suc n) (stored / 100)) (stored % 100)
          (omega (arith, length-store_digits (suc n) (stored / 100)))))
      (store_digits-first n (stored / 100) (omega arith) (omega arith))

-- What is stored fills the digits.
moved_range :
    (c coefficient : ℕ) (shift : ℤ)
    → Spans coefficient c
    → (shift ≡ pos 1) ⊎ (shift ≡ pos 2)
    → (power10 (suc c) ≤ coefficient * power10 (pos_part shift))
      × (coefficient * power10 (pos_part shift) < power10 (suc c) * 100)
unfolding power10
moved_range c coefficient shift (low, high) (inl one) =
    let place : coefficient * power10 (pos_part shift) ≡ coefficient * 10 =
      ap (λ z. coefficient * power10 (pos_part z)) one in
    (omega arith, omega arith)
moved_range c coefficient shift (low, high) (inr two) =
    let places : coefficient * power10 (pos_part shift) ≡ coefficient * 100 =
      ap (λ z. coefficient * power10 (pos_part z)) two in
    (omega arith, omega arith)

-- A number of the precision, and not the undefined answer of a failed decode.
abbrev pub IsStored : Precision → Option BasicNumber → Type 0
IsStored p none = ⊥
IsStored p (some n) = IsNumber n × (n.precision ≡ p)

decode-IsStored :
    (p : Precision) (lead : ℕ) (ds : List ℕ)
    → lead < 256
    → length ds ≡ pairs p
    → exceeds_base ds ≡ false
    → 0 < get_or ds 0 0
    → IsStored p (some_number (decode p (some (lead ∷ ds))))
decode-IsStored p lead ds byte width small first_digit =
    let known = decode-width p lead ds width ∙ decode_digits-decoded p lead ds small first_digit in
    let (number, same, again) =
      subst (IsCode p (lead ∷ ds)) known (encode-decode p (lead ∷ ds) byte) in
    subst (λ d. IsStored p (some_number d)) (sym known) (number, same)

abbrev nines : ℕ → List ℕ
nines count = replicate count 99

overflow-IsStored :
    (p : Precision) → IsStored p (some_number (decode p (some (0x7f ∷ nines (pairs p)))))
overflow-IsStored short = decode-IsStored short 0x7f (nines 4) (omega arith) refl refl (omega arith)
overflow-IsStored long = decode-IsStored long 0x7f (nines 8) (omega arith) refl refl (omega arith)

pub zero_number-IsStored : (p : Precision) → IsStored p (some (zero_number p))
zero_number-IsStored short = ((refl, omega arith, refl, inl (refl, refl, refl)), refl)
zero_number-IsStored long = ((refl, omega arith, refl, inl (refl, refl, refl)), refl)

digits_first :
    (p : Precision) (stored : ℕ)
    → power10 (significant_digits p) ≤ stored
    → stored < power10 (significant_digits p) * 100
    → 0 < get_or (store_digits (pairs p) stored) 0 0
digits_first short stored low high = store_digits-first 3 stored low high
digits_first long stored low high = store_digits-first 7 stored low high

store_at-IsStored :
    (p : Precision) (below : Bool) (shift exponent : ℤ) (c coefficient : ℕ)
    → suc c ≡ significant_digits p
    → Spans coefficient c
    → (shift ≡ pos 1) ⊎ (shift ≡ pos 2)
    → IsStored p (store_at p below shift exponent coefficient).1
unfolding store_at
store_at-IsStored p below shift (negsuc n) c coefficient e ns s = zero_number-IsStored p
store_at-IsStored p below shift (pos exponent) c coefficient e ns s =
    let stored = coefficient * power10 (pos_part shift) in
    let (low, high) = moved_range c coefficient shift ns s in
    let digits = store_digits (pairs p) stored in
    if-property (λ (r : Condition × Option BasicNumber). IsStored p r.1) (ltb 127 exponent) _ _
      (λ large. overflow-IsStored p)
      (λ fits.
        decode-IsStored p (lead_byte below exponent) digits
          (lead_byte-lt below exponent (ground arith)) (length-store_digits (pairs p) stored)
          (exceeds_base-store_digits (pairs p) stored)
          (digits_first p stored (subst (λ k. power10 k ≤ stored) e low)
            (subst (λ k. stored < power10 k * 100) e high)))

store-IsStored :
    (p : Precision) (below : Bool) (order : ℤ) (c coefficient : ℕ)
    → suc c ≡ significant_digits p
    → Spans coefficient c
    → IsStored p (store p below order (base_exponent order) coefficient).1
unfolding store
store-IsStored p below order c coefficient e ns =
    store_at-IsStored p below _ (base_exponent order +ℤ pos 64) c coefficient e ns
      (shift_range order)

places : (p : Precision) → suc (significant_digits p - 1) ≡ significant_digits p
places short = refl
places long = refl

module _ (text_length : ℕ → ℕ)
    (lengths : (n : ℕ) → 0 < n → (0 < text_length n) × Spans n (text_length n - 1)) where
  quantize_magnitude-IsStored :
      (n d : ℕ) (below : Bool) (p : Precision)
      → 0 < d
      → IsStored p (quantize_magnitude text_length n d below p).1
  unfolding quantize_magnitude
  quantize_magnitude-IsStored n d below p some_d =
      let c = significant_digits p - 1 in
      let order = decimal_order text_length n d in
      let coefficient = coefficient_of n d (pos c -ℤ order) in
      let carried = carry_order (power10 (significant_digits p)) order coefficient in
      if-property (λ (r : Condition × Option BasicNumber). IsStored p r.1) (n == 0) _ _
        (λ nothing. zero_number-IsStored p)
        (λ something.
          let found_order = decimal_order-finds text_length lengths n d (ground arith) some_d in
          let rounded = coefficient_of-IsRounded n d c order some_d found_order in
          store-IsStored p below carried.0 c carried.1 (places p) (
            subst (λ k. Spans (carry_order (power10 k) order coefficient).1 c) (places p)
              (carry_order-Spans c order coefficient rounded)))

  -- What is stored of a quotient is a number in the guest's form.
  pub quantize-IsStored :
      (numerator : ℤ) (d : ℕ) (below : Bool) (p : Precision)
      → 0 < d
      → IsStored p (quantize text_length numerator d below p).1
  unfolding quantize
  quantize-IsStored (pos n) d below p some_d = quantize_magnitude-IsStored n d below p some_d
  quantize-IsStored (negsuc n) d below p some_d =
      quantize_magnitude-IsStored (suc n) d (not below) p some_d
