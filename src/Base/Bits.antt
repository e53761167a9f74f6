-- ===== src/Base/Bits.antt =====
-- The bitwise operations at variables: a shifted field joined by `|` is a sum, and a mask of low
-- bits is a remainder, at every width.
use native.Mathlib.Nat.{
  pow-suc, pow-succ', one-le-pow, le_refl, div-div-eq-div-mul, mod-lt, mod-eq_of_lt, div-add-mod',
  add-mul-mod_self_right,
}
use native.Mathlib.Omega.{arith}
use mathlib.Core.Path.{◌≡◌, refl, ap, ◌∙◌}
use mathlib.Core.Logic.{◌⊎◌}
use Prim.Native.Nat.{
  ℕ, zero, suc, ◌+◌, ◌-◌, ◌*◌, ◌/◌, ◌%◌, ◌^◌, ◌≤◌, ◌<◌, min, max, bit_and, bit_or, bit_xor, digits,
  bitwise, bit_and-bitwise, bit_or-bitwise, bit_xor-bitwise, differ,
}

module _ (end : ℕ → ℕ) (op : ℕ → ℕ → ℕ) where
  -- Two counts of digits that both suffice for `a` agree.
  same_digits : (k l a b : ℕ) → a ≤ k → a ≤ l → digits end op k a b ≡ digits end op l a b
  same_digits zero zero a b h h' = refl
  same_digits zero (suc l) zero b h h' = refl
  same_digits (suc k) zero zero b h h' = refl
  same_digits (suc k) (suc l) zero b h h' = refl
  same_digits zero l (suc a) b h h' = absurd (omega arith)
  same_digits (suc k) zero (suc a) b h h' = absurd (omega arith)
  same_digits (suc k) (suc l) (suc a) b h h' =
      ap (λ t. t * 2 + op (suc a % 2) (b % 2))
        (same_digits k l (suc a / 2) (b / 2) (omega arith) (omega arith))

  lowest_digit :
      (a b : ℕ)
      → bitwise end op (suc a) b ≡ bitwise end op (suc a / 2) (b / 2) * 2 + op (suc a % 2) (b % 2)
  lowest_digit a b =
      ap (λ t. t * 2 + op (suc a % 2) (b % 2))
        (same_digits a (suc a / 2) (suc a / 2) (b / 2) (omega arith) (le_refl _))

or_digit : (x mask : ℕ) → bit_or x mask ≡ bit_or (x / 2) (mask / 2) * 2 + max (x % 2) (mask % 2)
or_digit zero b = simp bit_or-bitwise (omega arith)
or_digit (suc a) b = simp bit_or-bitwise (lowest_digit (λ y. y) max a b)

and_digit : (x mask : ℕ) → bit_and x mask ≡ bit_and (x / 2) (mask / 2) * 2 + min (x % 2) (mask % 2)
and_digit zero b = simp bit_and-bitwise (omega arith)
and_digit (suc a) b = simp bit_and-bitwise (lowest_digit (λ y. 0) min a b)

or_zero_upto : (n a : ℕ) → a ≤ n → bit_or a 0 ≡ a
or_zero_upto n zero h = refl
or_zero_upto zero (suc a) h = absurd (omega arith)
or_zero_upto (suc n) (suc a) h =
    omega (arith, or_digit (suc a) 0, or_zero_upto n (suc a / 2) (omega arith))

and_zero_upto : (n a : ℕ) → a ≤ n → bit_and a 0 ≡ 0
and_zero_upto n zero h = refl
and_zero_upto zero (suc a) h = absurd (omega arith)
and_zero_upto (suc n) (suc a) h =
    omega (arith, and_digit (suc a) 0, and_zero_upto n (suc a / 2) (omega arith))

pub bit_or-zero : (a : ℕ) → bit_or a 0 ≡ a
bit_or-zero a = or_zero_upto a a (le_refl a)

pub bit_and-zero : (a : ℕ) → bit_and a 0 ≡ 0
bit_and-zero a = and_zero_upto a a (le_refl a)

double_field : (x k : ℕ) → x * 2 ^ suc k ≡ (x * 2 ^ k) * 2
double_field x k = omega (arith, ap (λ (t : ℕ). x * t) (pow-suc 2 k))

-- `(x << k) | r` joins two fields when `r` fits k bits.
pub or_fields : (k x r : ℕ) → r < 2 ^ k → bit_or (x * 2 ^ k) r ≡ x * 2 ^ k + r
or_fields zero x r h = ground (arith, bit_or-zero x)
or_fields (suc k) x r h = ground (
  arith,
  pow-suc 2 k,
  double_field x k,
  or_digit (x * 2 ^ suc k) r,
  or_fields k x (r / 2) (omega (arith, pow-suc 2 k)),
)

-- A mask of the k bits above the lowest j: `a & (m << j)` is `((a >> j) & m) << j`.
pub and_high : (j a m : ℕ) → bit_and a (m * 2 ^ j) ≡ bit_and (a / 2 ^ j) m * 2 ^ j
and_high zero a m = ground arith
and_high (suc j) a m = ground (
  arith,
  double_field m j,
  double_field (bit_and (a / 2 ^ suc j) m) j,
  and_digit a (m * 2 ^ suc j),
  and_high j (a / 2) m,
  div-div-eq-div-mul a 2 (2 ^ j),
  pow-succ' 2 j,
)

-- The remainder by `2 * p`, from the remainder of the half by `p`.
mod_double : (a p : ℕ) → 0 < p → a % (p * 2) ≡ (a / 2 % p) * 2 + a % 2
mod_double a p h =
    let r : ℕ = (a / 2 % p) * 2 + a % 2 in
    let bound : r < p * 2 = omega (arith, mod-lt (a / 2) h) in
    let sum : a ≡ r + (a / 2 / p) * (p * 2) = omega (arith, div-add-mod' (a / 2) p) in
    rw (mod-eq_of_lt bound) at
      (ap (λ t. t % (p * 2)) sum ∙ add-mul-mod_self_right r (a / 2 / p) (p * 2))

-- `a & (2^k - 1)` keeps the low k bits.
pub and_low : (k a : ℕ) → bit_and a (2 ^ k - 1) ≡ a % 2 ^ k
and_low zero a = ground (arith, bit_and-zero a)
and_low (suc k) a = ground (
  arith,
  pow-suc 2 k,
  one-le-pow k 2,
  and_digit a (2 ^ suc k - 1),
  and_low k (a / 2),
  mod_double a (2 ^ k),
)

xor_digit : (x y : ℕ) → bit_xor x y ≡ bit_xor (x / 2) (y / 2) * 2 + differ (x % 2) (y % 2)
xor_digit zero b = simp bit_xor-bitwise (ground arith)
xor_digit (suc a) b = simp bit_xor-bitwise (lowest_digit (λ y. y) differ a b)

differ_zero : (d : ℕ) → differ d 0 ≡ d
differ_zero zero = refl
differ_zero (suc d) = refl

differ_one : (d : ℕ) → d < 2 → differ d 1 ≡ 1 - d
differ_one zero h = refl
differ_one (suc zero) h = refl
differ_one (suc (suc d)) h = absurd (omega arith)

xor_zero_upto : (n a : ℕ) → a ≤ n → bit_xor a 0 ≡ a
xor_zero_upto n zero h = refl
xor_zero_upto zero (suc a) h = absurd (omega arith)
xor_zero_upto (suc n) (suc a) h =
    omega (
      arith,
      xor_digit (suc a) 0,
      differ_zero (suc a % 2),
      xor_zero_upto n (suc a / 2) (omega arith),
    )

-- Exclusive or with a single bit sets it or clears it.
pub xor_bit : (k a : ℕ) → (bit_xor a (2 ^ k) ≡ a + 2 ^ k) ⊎ (bit_xor a (2 ^ k) + 2 ^ k ≡ a)
xor_bit zero a = ground (
  arith,
  xor_digit a 1,
  differ_one (a % 2) (omega arith),
  xor_zero_upto (a / 2) (a / 2) (le_refl _),
)
xor_bit (suc k) a =
    let rest = xor_bit k (a / 2) in
    ground (arith, pow-suc 2 k, xor_digit a (2 ^ suc k), differ_zero (a % 2), rest)
