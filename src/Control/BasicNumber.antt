-- ===== src/Control/BasicNumber.antt =====
-- `BasicNumber` of src/Processors/ControlStorage/BasicNumber.{h,cpp}: decimal numbers of an exponent
-- with a sign and four or eight digits to the base 100. The digits of the array that a short number
-- does not use are left out. A `cpp_int` is a number without bound; the length of its decimal text,
-- by which `decimalOrder` estimates, is an argument.
pub mod Code
pub mod Order
pub mod Magnitude
pub mod Coefficient
pub mod Quantize
pub mod Arithmetic
mod Tests
use sim.Base.{
  ℕ, zero, suc, ◌+◌, ◌-◌, ◌*◌, ◌/◌, ◌%◌, ◌^◌, bit_and, bit_or, Bool, true, false, not, ◌&&◌, ◌||◌,
  Option, none, some, List, [], ◌∷◌, ◌++◌, ltb, leb, ◌==◌, if◌then◌else◌, length, replicate, get_or,
}
use sim.Base.Int.{ℤ, pos, negsuc, pos_part, neg_part, neg, nat_abs, ◌+ℤ◌, ◌-ℤ◌}

pub data Precision : Type 0 where
  short : Precision
  long : Precision

pub data Condition : Type 0 where
  no_condition : Condition
  overflow : Condition
  underflow : Condition
  divide_by_zero : Condition
  integer_range : Condition

abbrev pub encoded_size : Precision → ℕ
encoded_size short = 5
encoded_size long = 9

abbrev pub significant_digits : Precision → ℕ
significant_digits short = 6
significant_digits long = 14

-- The digits behind the exponent.
abbrev pub pairs : Precision → ℕ
pairs short = 4
pairs long = 8

pub record BasicNumber : Type 0 where
  pub precision : Precision
  pub sign : Bool
  pub exponent : ℕ
  pub digits : List ℕ

abbrev pub zero_number : Precision → BasicNumber
zero_number p = record { precision = p; sign = false; exponent = 0; digits = replicate (pairs p) 0 }

abbrev pub all_zero : List ℕ → Bool
all_zero [] = true
all_zero (d ∷ ds) = d == 0 && all_zero ds

unfoldable pub is_zero : BasicNumber → Bool
is_zero n = all_zero n.digits

unfoldable pub negative : BasicNumber → Bool
negative n = n.sign && not (is_zero n)

-- Why bytes are no number.
pub data DecodeError : Type 0 where
  null_number : DecodeError
  wrong_width : DecodeError
  digit_too_large : DecodeError
  zero_not_canonical : DecodeError
  not_normalized : DecodeError

pub data Decoding : Type 0 where
  decoded : BasicNumber → Decoding
  malformed : DecodeError → Decoding

abbrev pub exceeds_base : List ℕ → Bool
exceeds_base [] = false
exceeds_base (d ∷ ds) = ltb 99 d || exceeds_base ds

unfoldable pub decode_digits : Precision → (lead : ℕ) → List ℕ → Decoding
decode_digits p lead ds =
    let answer : BasicNumber = record {
      precision = p;
      sign = not (bit_and lead 0x80 == 0);
      exponent = bit_and lead 0x7f;
      digits = ds;
    } in
    if exceeds_base ds
    then malformed digit_too_large
    else if all_zero ds
    then (if not (lead == 0) then malformed zero_not_canonical else decoded answer)
    else if get_or ds 0 0 == 0
    then malformed not_normalized
    else decoded answer

unfoldable pub decode_bytes : Precision → List ℕ → Decoding
decode_bytes p [] = malformed wrong_width
decode_bytes p (lead ∷ ds) =
    if length ds + 1 == encoded_size p then decode_digits p lead ds else malformed wrong_width

unfoldable pub decode : Precision → Option (List ℕ) → Decoding
decode p none = malformed null_number
decode p (some bytes) = decode_bytes p bytes

unfoldable pub encode : BasicNumber → List ℕ
encode n =
    if is_zero n
    then replicate (encoded_size n.precision) 0
    else bit_or (if n.sign then 0x80 else 0) n.exponent ∷ n.digits

unfoldable pub negated : BasicNumber → BasicNumber
negated n = if not (is_zero n) then record n { sign = not n.sign } else n

unfoldable pub power10 : ℕ → ℕ
power10 zero = 1
power10 (suc n) = power10 n * 10

unfoldable pub mantissa_of : (answer : ℕ) → List ℕ → ℕ
mantissa_of answer [] = answer
mantissa_of answer (d ∷ ds) = mantissa_of (answer * 100 + d) ds

unfoldable pub mantissa : BasicNumber → ℕ
mantissa n = mantissa_of 0 n.digits

pub record Rational : Type 0 where
  pub numerator : ℕ
  pub denominator : ℕ

unfoldable pub scaled : (mantissa : ℕ) → ℤ → Rational
scaled m (pos power) = record { numerator = m * power10 (power * 2); denominator = 1 }
scaled m (negsuc n) = record { numerator = m; denominator = power10 (suc n * 2) }

unfoldable pub magnitude : BasicNumber → Rational
magnitude n = scaled (mantissa n) (pos n.exponent -ℤ pos (64 + pairs n.precision))

abbrev pub same_precision : Precision → Precision → Bool
same_precision short short = true
same_precision short long = false
same_precision long short = false
same_precision long long = true

abbrev pub is_short : Precision → Bool
is_short short = true
is_short long = false

abbrev pub differ : Bool → Bool → Bool
differ true b = not b
differ false b = b

abbrev pub three_way : ℕ → ℕ → ℤ
three_way l r = if ltb l r then negsuc 0 else if ltb r l then pos 1 else pos 0

unfoldable pub compare_magnitudes : Bool → Rational → Rational → ℤ
compare_magnitudes below a b =
    let answer = three_way (a.numerator * b.denominator) (b.numerator * a.denominator) in
    if below then neg answer else answer

unfoldable pub compare : BasicNumber → BasicNumber → ℤ
compare a b =
    if not (same_precision a.precision b.precision)
    then (if is_short a.precision then negsuc 0 else pos 1)
    else if is_zero a && is_zero b
    then pos 0
    else if differ (negative a) (negative b)
    then (if negative a then negsuc 0 else pos 1)
    else compare_magnitudes (negative a) (magnitude a) (magnitude b)

-- A digit of 50 or more rounds up.
abbrev pub rounds_up : ℕ → ℕ
rounds_up d = if leb 50 d then 1 else 0

unfoldable pub rounded_magnitude : (exponent : ℕ) → List ℕ → ℕ
rounded_magnitude exponent ds =
    if exponent == 0x40
    then rounds_up (get_or ds 0 0)
    else if exponent == 0x41
    then get_or ds 0 0 + rounds_up (get_or ds 1 0)
    else get_or ds 0 0 * 100 + get_or ds 1 0 + rounds_up (get_or ds 2 0)

abbrev pub signed : Bool → ℕ → ℤ
signed below n = if below then neg (pos n) else pos n

unfoldable pub rounded_integer : BasicNumber → Condition × ℤ
rounded_integer n =
    if is_zero n || ltb n.exponent 0x40
    then (no_condition, pos 0)
    else if ltb 0x42 n.exponent
    then (integer_range, signed (negative n) 0x4000)
    else (no_condition, signed (negative n) (rounded_magnitude n.exponent n.digits))

-- The order of a number and its rounded coefficient.
unfoldable pub carry_order : (limit : ℕ) → (order : ℤ) → (coefficient : ℕ) → ℤ × ℕ
carry_order limit order coefficient =
    if coefficient == limit then (order +ℤ pos 1, coefficient / 10) else (order, coefficient)

unfoldable pub round_quotient : (numerator denominator : ℕ) → ℕ
round_quotient n d = if leb d (n % d * 2) then n / d + 1 else n / d

unfoldable pub coefficient_of : (numerator denominator : ℕ) → (scale : ℤ) → ℕ
coefficient_of n d (pos s) = round_quotient (n * power10 s) d
coefficient_of n d (negsuc s) = round_quotient n (d * power10 (suc s))

-- The exponent to the base 100, by a division that truncates.
unfoldable pub base_exponent : ℤ → ℤ
base_exponent (pos order) = pos (order / 2 + 1)
base_exponent (negsuc n) = pos 1 -ℤ pos ((n + 2) / 2)

-- So many digits to the base 100, the lowest last.
unfoldable pub store_digits : (count stored : ℕ) → List ℕ
store_digits zero stored = []
store_digits (suc n) stored = store_digits n (stored / 100) ++ stored % 100 ∷ []

-- The answer of `*decode(...)`, which is undefined on what is no number.
abbrev pub some_number : Decoding → Option BasicNumber
some_number (decoded n) = some n
some_number (malformed e) = none

-- The coefficient moved by so many decimal places, under the guest's exponent.
unfoldable pub store_at :
    Precision
    → (below : Bool) → (shift exponent : ℤ) → (coefficient : ℕ) → Condition × Option BasicNumber
store_at p below shift (negsuc n) coefficient = (underflow, some (zero_number p))
store_at p below shift (pos exponent) coefficient =
    if ltb 127 exponent
    then (overflow, some_number (decode p (some (0x7f ∷ replicate (pairs p) 99))))
    else (
      no_condition,
      some_number (
          decode p (
            some (
              bit_or (if below then 0x80 else 0) exponent
              ∷ store_digits (pairs p) (coefficient * power10 (pos_part shift))))),
    )

unfoldable pub store :
    Precision → (below : Bool) → (order q : ℤ) → (coefficient : ℕ) → Condition × Option BasicNumber
store p below order q coefficient =
    store_at p below (order +ℤ pos 3 -ℤ (q +ℤ q)) (q +ℤ pos 64) coefficient

unfoldable pub correct_order : (numerator denominator : ℕ) → ℤ → ℤ
correct_order n d (pos t) = if ltb n (d * power10 t) then pos t -ℤ pos 1 else pos t
correct_order n d (negsuc t) = if ltb (n * power10 (suc t)) d then negsuc t -ℤ pos 1 else negsuc t

module _ (text_length : ℕ → ℕ) where
  unfoldable pub decimal_order : (numerator denominator : ℕ) → ℤ
  decimal_order n d = correct_order n d (pos (text_length n) -ℤ pos (text_length d))

  -- Of a numerator that is not negative, and a denominator that is positive as all of them are.
  unfoldable pub quantize_magnitude :
      (numerator denominator : ℕ) → Bool → Precision → Condition × Option BasicNumber
  quantize_magnitude n d below p =
      let order = decimal_order n d in
      let coefficient = coefficient_of n d (pos (significant_digits p - 1) -ℤ order) in
      let (order', coefficient') = carry_order (power10 (significant_digits p)) order coefficient in
      if n == 0
      then (no_condition, some (zero_number p))
      else store p below order' (base_exponent order') coefficient'

  unfoldable pub quantize :
      (numerator : ℤ) → (denominator : ℕ) → Bool → Precision → Condition × Option BasicNumber
  quantize (pos n) d below p = quantize_magnitude n d below p
  quantize (negsuc n) d below p = quantize_magnitude (suc n) d (not below) p

  unfoldable pub from_integer : ℤ → Precision → Condition × Option BasicNumber
  from_integer (pos n) p = quantize (pos n) 1 false p
  from_integer (negsuc n) p = quantize (pos (suc n)) 1 true p

  unfoldable pub add : BasicNumber → BasicNumber → Condition × Option BasicNumber
  add a b =
      let left = magnitude a in
      let right = magnitude b in
      if not (same_precision a.precision b.precision)
      then (underflow, some (zero_number a.precision))
      else quantize
          (signed (negative a) (left.numerator * right.denominator)
            +ℤ signed (negative b) (right.numerator * left.denominator))
          (left.denominator * right.denominator) false a.precision

  unfoldable pub subtract : BasicNumber → BasicNumber → Condition × Option BasicNumber
  subtract a b = add a (negated b)

  unfoldable pub multiply : BasicNumber → BasicNumber → Condition × Option BasicNumber
  multiply a b =
      let left = magnitude a in
      let right = magnitude b in
      if not (same_precision a.precision b.precision)
      then (underflow, some (zero_number a.precision))
      else quantize (pos (left.numerator * right.numerator)) (left.denominator * right.denominator)
          (differ (negative a) (negative b)) a.precision

  unfoldable pub divide : BasicNumber → BasicNumber → Condition × Option BasicNumber
  divide a b =
      let left = magnitude a in
      let right = magnitude b in
      if not (same_precision a.precision b.precision) || is_zero b
      then (divide_by_zero, some (zero_number a.precision))
      else quantize (pos (left.numerator * right.denominator)) (left.denominator * right.numerator)
          (differ (negative a) (negative b)) a.precision
