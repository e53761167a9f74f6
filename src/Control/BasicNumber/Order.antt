-- ===== src/Control/BasicNumber/Order.antt =====
-- The order of the numbers of src/Processors/ControlStorage/BasicNumber.cpp.
use sim.Base.{ℕ, ◌*◌, Bool, true, false, not, ◌&&◌, if◌then◌else◌, ◌≡◌, refl, sym, ap, ◌∙◌, arith}
use sim.Base.Int.{ℤ, pos, negsuc, neg}
use sim.Control.BasicNumber.{
  Precision, short, long, BasicNumber, is_zero, negative, same_precision, is_short, differ,
  three_way, Rational, compare_magnitudes, magnitude, compare,
}

three_way-swapped : (l r : ℕ) → three_way r l ≡ neg (three_way l r)
three_way-swapped l r = ground arith

three_way-neg : (l r : ℕ) → neg (neg (three_way l r)) ≡ three_way l r
three_way-neg l r = ground arith

compare_magnitudes-swapped :
    (below : Bool) (a b : Rational)
    → compare_magnitudes below b a ≡ neg (compare_magnitudes below a b)
unfolding compare_magnitudes
compare_magnitudes-swapped true a b =
    ap neg (three_way-swapped (a.numerator * b.denominator) (b.numerator * a.denominator))
compare_magnitudes-swapped false a b =
    three_way-swapped (a.numerator * b.denominator) (b.numerator * a.denominator)

-- What `compare` decides from the kinds and the signs of two numbers.
abbrev decide : (p q : Precision) → (zero_a zero_b below_a below_b : Bool) → ℤ → ℤ
decide p q za zb na nb magnitudes =
    if not (same_precision p q)
    then (if is_short p then negsuc 0 else pos 1)
    else if za && zb
    then pos 0
    else if differ na nb
    then (if na then negsuc 0 else pos 1)
    else magnitudes

decide-swapped :
    (p q : Precision) (za zb na nb : Bool) (m m' : ℤ)
    → (na ≡ nb → m' ≡ neg m)
    → decide q p zb za nb na m' ≡ neg (decide p q za zb na nb m)
decide-swapped short long za zb na nb m m' h = refl
decide-swapped long short za zb na nb m m' h = refl
decide-swapped short short za zb na nb m m' h = ground arith
decide-swapped long long za zb na nb m m' h = ground arith

-- Two numbers compare the other way round when they are exchanged, whatever their precisions.
compare-swapped : (a b : BasicNumber) → compare b a ≡ neg (compare a b)
unfolding compare
compare-swapped a b =
    decide-swapped a.precision b.precision (is_zero a) (is_zero b) (negative a) (negative b)
      (compare_magnitudes (negative a) (magnitude a) (magnitude b))
      (compare_magnitudes (negative b) (magnitude b) (magnitude a))
      (λ same.
        ap (λ below. compare_magnitudes below (magnitude b) (magnitude a)) (sym same)
        ∙ compare_magnitudes-swapped (negative a) (magnitude a) (magnitude b))
