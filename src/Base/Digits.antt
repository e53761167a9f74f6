-- ===== src/Base/Digits.antt =====
-- Numbers written in base-256 digits, lowest first.
use Prim.Native.Nat.{ℕ, zero, suc, ◌+◌, ◌-◌, ◌*◌, ◌≤◌, ◌<◌, ◌^◌}
use native.Mathlib.Nat.{pow-suc, add-zero}
use native.Mathlib.Omega.{arith}
use mathlib.Core.Path.{◌≡◌, refl, ap, ◌∙◌}

-- The `n` digits from the `i`th on.
unfoldable pub value : (ℕ → ℕ) → ℕ → ℕ → ℕ
value d i zero = 0
value d i (suc n) = d i + 256 * value d (i + 1) n

pub value-ext :
    (d e : ℕ → ℕ) (i n : ℕ) → ((k : ℕ) → i ≤ k → k < i + n → d k ≡ e k) → value d i n ≡ value e i n
unfolding value
value-ext d e i zero h = refl
value-ext d e i (suc n) h = omega (
  arith,
  h i (omega arith) (omega arith),
  value-ext d e (i + 1) n (λ k l u. h k (omega arith) (omega arith)),
)

pub value-lt :
    (d : ℕ → ℕ) (i n : ℕ) → ((k : ℕ) → i ≤ k → k < i + n → d k < 256) → value d i n < 256 ^ n
unfolding value
value-lt d i zero h = omega arith
value-lt d i (suc n) h = omega (
  arith,
  pow-suc 256 n,
  h i (omega arith) (omega arith),
  value-lt d (i + 1) n (λ k l u. h k (omega arith) (omega arith)),
)

-- A number and its complement make 256 ^ n - 1.
pub value-complement :
    (d : ℕ → ℕ) (i n : ℕ)
    → ((k : ℕ) → i ≤ k → k < i + n → d k < 256)
    → value (λ k. 255 - d k) i n + value d i n + 1 ≡ 256 ^ n
unfolding value
value-complement d i zero h = omega arith
value-complement d i (suc n) h = omega (
  arith,
  pow-suc 256 n,
  h i (omega arith) (omega arith),
  value-complement d (i + 1) n (λ k l u. h k (omega arith) (omega arith)),
)

-- The highest digit split off.
pub value-top : (d : ℕ → ℕ) (i n : ℕ) → value d i (suc n) ≡ value d i n + d (i + n) * 256 ^ n
unfolding value
value-top d i zero = omega (arith, ap d (add-zero i))
value-top d i (suc n) =
    let index : i + suc n ≡ i + 1 + n = omega arith in
    omega (
      arith,
      value-top d (i + 1) n,
      ap (λ k. d k * 256 ^ suc n) index,
      ap (λ k. d (i + 1 + n) * k) (pow-suc 256 n),
    )

pub value-highest : (d : ℕ → ℕ) (n : ℕ) → value d 0 (suc n) ≡ value d 0 n + d n * 256 ^ n
value-highest d n =
    let index : 0 + n ≡ n = omega arith in
    value-top d 0 n ∙ ap (λ k. value d 0 n + d k * 256 ^ n) index
