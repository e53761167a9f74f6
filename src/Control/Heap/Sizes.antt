-- ===== src/Control/Heap/Sizes.antt =====
-- The size classes of src/Processors/ControlStorage/GuestHeap.cpp: which lengths are a class's own.
use native.Mathlib.Nat.{pow-suc}
use sim.Base.{
  if-property, ℕ, zero, suc, ◌+◌, ◌*◌, ◌/◌, ◌%◌, ◌^◌, ◌≤◌, ◌<◌, ◌≡◌, refl, sym, ap, subst, ◌∙◌, ◌⊎◌,
  inl, inr, Bool, true, not, ◌&&◌, ◌||◌, ltb, leb, ◌==◌, if◌then◌else◌, arith, ltb→lt, leb→le,
  Bool-cases,
}
use sim.Base.Table.{all_below, all_below_sound, eq_by_table}
use sim.Control.Heap.FreeLists.{
  class_index, class_from, class_bytes, is_power_of_two, chunk_of, rounded_size,
}
use sim.Control.Heap.Ledger.{IsClassSize}

class_index-class_bytes : (k : ℕ) → k < 12 → class_index (class_bytes k) ≡ k
unfolding all_below class_index class_from
class_index-class_bytes k h = eq_by_table 12 (λ j. class_index (class_bytes j)) (λ j. j) k refl h

pub class_bytes-IsClassSize : (k : ℕ) → k < 12 → IsClassSize (class_bytes k)
class_bytes-IsClassSize k h =
    let same = class_index-class_bytes k h in
    record { index = omega (arith, same); exact = ap class_bytes same }

power_test : ℕ → Bool
power_test u =
    (not (is_power_of_two (16 * u)) || u == 0)
    || (class_bytes (class_index (16 * u)) == 16 * u && ltb (class_index (16 * u)) 12)

power_table : all_below 4096 power_test ≡ true
unfolding all_below class_index class_from is_power_of_two power_test
power_table = refl

pub power-IsClassSize :
    (size : ℕ)
    → is_power_of_two size ≡ true
    → 0 < size
    → size < 65536
    → size % 16 ≡ 0
    → IsClassSize size
unfolding power_test
power-IsClassSize size power positive small whole =
    let row = all_below_sound 4096 power_test (size / 16) power_table (omega arith) in
    let same : 16 * (size / 16) ≡ size = omega arith in
    let power' = ap is_power_of_two same in
    let index = ap class_index same in
    let bytes = ap class_bytes index in
    record { index = ground (arith, row); exact = ground (arith, row) }

unfoldable power_of_class : ℕ → Bool
power_of_class k = is_power_of_two (class_bytes k)

-- The length of a class is a power of two.
pub class_bytes-power : (size : ℕ) → IsClassSize size → is_power_of_two size ≡ true
unfolding all_below power_of_class is_power_of_two
class_bytes-power size s =
    ap is_power_of_two (sym s.exact)
    ∙ all_below_sound 12 power_of_class (class_index size) refl s.index

pub double_class : (c k : ℕ) → c * 2 ^ suc k ≡ c * 2 * 2 ^ k
double_class c k = omega (arith, ap (λ (t : ℕ). c * t) (pow-suc 2 k))

-- The loop of `class_index` stops at the first class that is not too small.
class_from-bound :
    (left c bytes : ℕ)
    → (class_from left c bytes ≤ left)
      × ((class_from left c bytes ≡ 0) ⊎ (c * 2 ^ class_from left c bytes < 2 * bytes))
unfolding class_from
class_from-bound zero c bytes = (omega arith, inl refl)
class_from-bound (suc left) c bytes =
    let (bound, part) = class_from-bound left (c * 2) bytes in
    let k = class_from left (c * 2) bytes in
    if-property (λ r. (r ≤ suc left) × ((r ≡ 0) ⊎ (c * 2 ^ r < 2 * bytes))) (ltb c bytes) (suc k) 0
      (λ h. (
        omega arith,
        inr (elim part [
          | inl none_left ↦
              omega
                (arith, double_class c k, ap (λ (t : ℕ). c * 2 * 2 ^ t) none_left, ltb→lt c bytes h)
          | inr below ↦ omega (arith, double_class c k)
        ]),
      ))
      (λ h. (omega arith, inl refl))

clip :
    (k size : ℕ)
    → k ≤ 12
    → 16 ≤ size
    → ((k ≡ 0) ⊎ (class_bytes k < 2 * (size / 2 + 1)))
    → IsClassSize (if ltb 32768 (class_bytes k) then 32768 else class_bytes k)
      × ((if ltb 32768 (class_bytes k) then 32768 else class_bytes k) ≤ size)
clip k size h large part =
    let half : class_bytes k ≡ 2 * (8 * 2 ^ k) = omega arith in
    let below : class_bytes k ≤ size = elim part [
      | inl z ↦ omega (arith, ap class_bytes z)
      | inr lt ↦ omega arith
    ] in
    if-property (λ r. IsClassSize r × (r ≤ size)) (ltb 32768 (class_bytes k)) _ _
      (λ c. (class_bytes-IsClassSize 11 (omega arith), ground arith))
      (λ c. (
        elim (Bool-cases (ltb k 12)) [
          | inl lt ↦ class_bytes-IsClassSize k (ground arith)
          | inr ge ↦
              absurd (let last : k ≡ 12 = ground arith in ground (arith, ap class_bytes last))
        ],
        below,
      ))

-- A chunk is a class's length and at most what is left.
pub chunk_of-IsClassSize :
    (size : ℕ) → 16 ≤ size → IsClassSize (chunk_of size) × (chunk_of size ≤ size)
unfolding chunk_of class_index
chunk_of-IsClassSize size large =
    let (bound, part) = class_from-bound 12 16 (size / 2 + 1) in
    clip (class_from 12 16 (size / 2 + 1)) size bound large part

pub double-IsClassSize : (size : ℕ) → IsClassSize size → size < 32768 → IsClassSize (size * 2)
double-IsClassSize size s small =
    let k = class_index size in
    let index : suc k < 12 = elim (Bool-cases (k == 11)) [
      | inl last ↦
          absurd
            (let eleven : k ≡ 11 = ground arith in ground (arith, s.exact, ap class_bytes eleven))
      | inr other ↦ ground (arith, s.index)
    ] in
    subst IsClassSize (omega (arith, double_class 16 k, s.exact))
      (class_bytes-IsClassSize (suc k) index)

class_from-enough :
    (left c bytes : ℕ)
    → (class_from left c bytes ≡ left) ⊎ (bytes ≤ c * 2 ^ class_from left c bytes)
unfolding class_from
class_from-enough zero c bytes = inl refl
class_from-enough (suc left) c bytes =
    let k = class_from left (c * 2) bytes in
    if-property (λ r. (r ≡ suc left) ⊎ (bytes ≤ c * 2 ^ r)) (ltb c bytes) (suc k) 0
      (λ h. elim (class_from-enough left (c * 2) bytes) [
        | inl all ↦ inl (ap suc all)
        | inr enough ↦ inr (omega (arith, enough, double_class c k))
      ])
      (λ h. inr (ground (arith, h)))

class_index-enough :
    (bytes : ℕ) → (class_index bytes ≡ 12) ⊎ (bytes ≤ class_bytes (class_index bytes))
unfolding class_index
class_index-enough bytes = class_from-enough 12 16 bytes

clip_rounding :
    (bytes c : ℕ)
    → 0 < bytes
    → bytes ≤ c
    → c % 16 ≡ 0
    → let size = if leb (bytes + 256) c then (bytes + 255) / 256 * 256 else c in
      (bytes ≤ size) × (size ≤ c) × (size % 16 ≡ 0)
clip_rounding bytes c positive fits whole =
    if-property (λ size. (bytes ≤ size) × (size ≤ c) × (size % 16 ≡ 0)) (leb (bytes + 256) c) _ _
      (λ h. (omega arith, omega (arith, leb→le (bytes + 256) c h), omega arith))
      (λ h. (fits, omega arith, whole))

-- An assigned length holds the request, is in multiples of 16 bytes and fits the request's class.
pub rounded_size-fits :
    (bytes : ℕ)
    → 0 < bytes
    → class_index bytes < 12
    → (bytes ≤ rounded_size bytes)
      × (rounded_size bytes ≤ class_bytes (class_index bytes))
      × (rounded_size bytes % 16 ≡ 0)
unfolding rounded_size
rounded_size-fits bytes positive small =
    let k = class_index bytes in
    let fits : bytes ≤ class_bytes k = elim (class_index-enough bytes) [
      | inl all ↦ absurd (omega (arith, all, small))
      | inr enough ↦ enough
    ] in
    if-property (λ size. (bytes ≤ size) × (size ≤ class_bytes k) × (size % 16 ≡ 0)) (bytes == 0) _ _
      (λ h. absurd (ground arith))
      (λ h. clip_rounding bytes (class_bytes k) positive fits (omega arith))
