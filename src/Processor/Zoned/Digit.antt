-- ===== src/Processor/Zoned/Digit.antt =====
-- A zoned field written by src/Processors/MainStorageProcessor.cpp and read back.
use sim.Base.{
  ℕ, zero, suc, ◌+◌, ◌*◌, ◌/◌, ◌%◌, ◌^◌, ◌≤◌, ◌<◌, ◌≡◌, refl, sym, ap, ◌∙◌, ◌↔◌, bit_and, bit_or,
  Bool, true, false, not, ◌&&◌, arith, ◌==◌, if◌then◌else◌,
}
use native.Mathlib.Nat.{pow-suc, add-zero}
use sim.Base.Int.{ℤ, pos, negsuc, nat_abs, neg}
use sim.Base.Table.{all_below, all_below_sound}
use sim.Machine.State.{poke}
use sim.Processor.Core.{Processor}
use sim.Processor.Core.Access.{store, bytes, Field, read_stored, write_stored}
use sim.Processor.Characters.Move.{Distinct, poke_self, poke-ne}
use sim.Processor.Zoned.{
  zone_plus, zone_minus, read_digits, read_zoned, write_digits, write_zoned, is_negative,
}

abbrev low : ℕ → ℕ
low b = bit_and b 0x0f

-- The byte of the `i`th digit.
digit_byte : ℕ → Bool → ℕ → ℕ
digit_byte i negative d =
    bit_or (if i == 0 then (if negative then zone_minus else zone_plus) else 0xf0) d

digit_table :
    (zone : Bool)
    → all_below 10 (λ d.
      (bit_and (bit_or (if zone then 0xd0 else 0xf0) d) 0x0f == d)
      && (bit_and (bit_or (if zone then 0xd0 else 0xf0) d) 0xf0 == (if zone then 0xd0 else 0xf0)))
      ≡ true
unfolding all_below
digit_table true = refl
digit_table false = refl

low-digit_byte : (i : ℕ) (negative : Bool) (d : ℕ) → d < 10 → low (digit_byte i negative d) ≡ d
unfolding digit_byte
low-digit_byte i negative d h =
    let m = all_below_sound 10 _ d (digit_table true) h in
    let n = all_below_sound 10 _ d (digit_table false) h in ground arith

zone-digit_byte :
    (negative : Bool) (d : ℕ)
    → d < 10
    → bit_and (digit_byte 0 negative d) 0xf0 ≡ (if negative then zone_minus else zone_plus)
unfolding digit_byte
zone-digit_byte negative d h =
    let m = all_below_sound 10 _ d (digit_table true) h in
    let n = all_below_sound 10 _ d (digit_table false) h in ground arith

-- What `n` digits leave over.
drop_digits : ℕ → ℕ → ℕ
drop_digits zero v = v
drop_digits (suc n) v = drop_digits n (v / 10)

drop_digits_zero : (n v : ℕ) → drop_digits n v ≡ 0 ↔ v < 10 ^ n
unfolding drop_digits
drop_digits_zero zero v = (λ h. omega arith, λ h. omega arith)
drop_digits_zero (suc n) v =
    let (to, from) = drop_digits_zero n (v / 10) in
    let p = pow-suc 10 n in (λ h. omega (arith, to h), λ h. from (omega arith))

module _ (size : ℕ) (a : ℕ → ℕ) where
  -- Storage with `n` digits from the `i`th on.
  written : (ℕ → ℕ) → ℕ → ℕ → Bool → ℕ → ℕ → ℕ
  written f zero i negative v = f
  written f (suc n) i negative v =
      written (poke f (a i) (digit_byte i negative (v % 10))) n (i + 1) negative (v / 10)

  written-before :
      Distinct size a
      → (f : ℕ → ℕ) (n i : ℕ) (negative : Bool) (v k : ℕ) → i + n ≤ size
      → k < i
      → k < size
      → written f n i negative v (a k) ≡ f (a k)
  unfolding written
  written-before d f zero i negative v k le lt in_field = refl
  written-before d f (suc n) i negative v k le lt in_field =
      let b = digit_byte i negative (v % 10) in
      written-before d (poke f (a i) b) n (i + 1) negative (v / 10) k (omega arith) (omega arith)
        in_field
      ∙ poke-ne f (a i) b (a k) (λ eq. absurd (omega (arith, d i k (omega arith) in_field eq)))

  written-here :
      Distinct size a
      → (f : ℕ → ℕ) (n i : ℕ) (negative : Bool) (v : ℕ) → i + suc n ≤ size
      → written f (suc n) i negative v (a i) ≡ digit_byte i negative (v % 10)
  unfolding written
  written-here d f n i negative v le =
      let b = digit_byte i negative (v % 10) in
      written-before d (poke f (a i) b) n (i + 1) negative (v / 10) i (omega arith) (omega arith)
        (omega arith)
      ∙ poke_self f (a i) b

  -- The number of `n` digits from the `i`th on, after `acc`.
  decimal : (ℕ → ℕ) → ℕ → ℕ → ℕ → ℕ
  decimal g zero i acc = acc
  decimal g (suc n) i acc = decimal g n (i + 1) acc * 10 + low (g (a i))

  decimal-none : (g : ℕ → ℕ) (acc : ℕ) → decimal g 0 0 acc ≡ acc
  unfolding decimal
  decimal-none g acc = refl

  decimal-top :
      (g : ℕ → ℕ) (n i acc : ℕ)
      → decimal g (suc n) i acc ≡ decimal g n i (acc * 10 + low (g (a (i + n))))
  unfolding decimal
  decimal-top g zero i acc = omega (arith, ap (λ k. low (g (a k))) (add-zero i))
  decimal-top g (suc n) i acc =
      let index : i + suc n ≡ i + 1 + n = omega arith in
      let step = decimal-top g n (i + 1) acc in rw index (ap (λ t. t * 10 + low (g (a i))) step)

  decimal-written :
      Distinct size a
      → (f : ℕ → ℕ) (n i : ℕ) (negative : Bool) (v : ℕ) → i + n ≤ size
      → decimal (written f n i negative v) n i (drop_digits n v) ≡ v
  unfolding decimal written drop_digits
  decimal-written d f zero i negative v le = refl
  decimal-written d f (suc n) i negative v le =
      let b = digit_byte i negative (v % 10) in
      let here = written-here d f n i negative v (omega arith) in
      let digit = low-digit_byte i negative (v % 10) (omega arith) in
      let rest = decimal-written d (poke f (a i) b) n (i + 1) negative (v / 10) (omega arith) in
      omega (arith, rest, ap low here ∙ digit)

module _ (p : Processor) (size : ℕ) (a : ℕ → ℕ) (h : Field p true size a) where
  write_digits-written :
      (n i : ℕ) (f : ℕ → ℕ) (negative : Bool) (v : ℕ)
      → i + n ≤ size
      → write_digits n i negative v (store p f)
        ≡ (drop_digits n v, store p (written size a f n i negative v))
  unfolding write_digits written drop_digits digit_byte
  write_digits-written zero i f negative v le = refl
  write_digits-written (suc n) i f negative v le = rw (write_stored p true h i (omega arith) f _) (
      write_digits-written n (i + 1) (poke f (a i) (digit_byte i negative (v % 10))) negative
        (v / 10) (omega arith))

  read_digits-decimal :
      (n : ℕ) (f : ℕ → ℕ) (acc : ℕ)
      → n ≤ size
      → read_digits true n acc (store p f) ≡ (decimal size a f n 0 acc, store p f)
  unfolding read_digits
  read_digits-decimal zero f acc le = ap (λ t. (t, store p f)) (sym (decimal-none size a f acc))
  read_digits-decimal (suc n) f acc le =
      let next = acc * 10 + low (f (a n)) in
      let index : 0 + n ≡ n = omega arith in
      let top = decimal-top size a f n 0 acc in
      rw (read_stored p true h n (omega arith) f) (
        read_digits-decimal n f next (omega arith)
        ∙ ap (λ t. (t, store p f)) (sym (rw index at top)))

  -- A field of one byte or more after `write_digits`: what `read_zoned` makes of it.
  read_zoned-written :
      (n : ℕ) (f : ℕ → ℕ) (negative : Bool) (v : ℕ)
      → size ≡ suc n
      → Distinct size a
      → drop_digits size v ≡ 0
      → read_zoned true size (store p (written size a f size 0 negative v))
        ≡ (if negative then neg (pos v) else pos v, store p (written size a f size 0 negative v))
  unfolding read_zoned
  read_zoned-written n f negative v e d fits =
      let g = written size a f size 0 negative v in
      let digits = read_digits-decimal size g 0 (omega arith) in
      let number = decimal-written size a d f size 0 negative v (omega arith) in
      let right = read_stored p true h 0 (omega arith) g in
      let first : g (a 0) ≡ digit_byte 0 negative (v % 10) =
        ap (λ k. written size a f k 0 negative v (a 0)) e
        ∙ written-here size a d f n 0 negative v (omega arith) in
      let zone = zone-digit_byte negative (v % 10) (omega arith) in
      let all : decimal size a g size 0 0 ≡ v = rw fits at number in
      rw (digits, all, right, first, zone) (ground arith)

  whole_lem : (z : ℤ) → (if is_negative z then neg (pos (nat_abs z)) else pos (nat_abs z)) ≡ z
  unfolding is_negative
  whole_lem (pos n) = refl
  whole_lem (negsuc n) = ground arith

  write_zoned-written :
      (z : ℤ)
      → write_zoned size z p ≡ (
        not (drop_digits size (nat_abs z) == 0),
        store p (written size a (bytes p) size 0 (is_negative z) (nat_abs z)),
      )
  unfolding write_zoned
  write_zoned-written z =
      rw (write_digits-written size 0 (bytes p) (is_negative z) (nat_abs z) (omega arith)) refl

-- Decimal overflow is reported for a number written to a zoned field whose bytes are all within
-- reach exactly when the number has more digits than the field has bytes.
pub write_zoned-overflow :
    (p : Processor) (n : ℕ) (a : ℕ → ℕ) (z : ℤ)
    → Field p true n a
    → (write_zoned n z p).0 ≡ false ↔ nat_abs z < 10 ^ n
write_zoned-overflow p n a z h =
    let (to, from) = drop_digits_zero n (nat_abs z) in
    rw (write_zoned-written p n a h z) (λ o. to (ground arith), λ o. ground (arith, from o))

-- A number between -2 ^ 63 and 2 ^ 63, both left out, written to a zoned field of one byte or more,
-- all of them within reach at different addresses, is read back with its sign when it has no more
-- digits than the field has bytes. In these bounds no `long long` of the source overflows.
pub read_zoned-write_zoned :
    (p : Processor) (n : ℕ) (a : ℕ → ℕ) (z : ℤ)
    → Field p true (suc n) a
    → Distinct (suc n) a
    → nat_abs z < 10 ^ suc n
    → nat_abs z < 2 ^ 63
    → (read_zoned true (suc n) (write_zoned (suc n) z p).1).0 ≡ z
read_zoned-write_zoned p n a z h d fits long_long =
    let v = nat_abs z in
    let rest = (drop_digits_zero (suc n) v).1 fits in
    let back = read_zoned-written p (suc n) a h n (bytes p) (is_negative z) v refl d rest in
    rw (write_zoned-written p (suc n) a h z, back) (whole_lem p (suc n) a h z)
