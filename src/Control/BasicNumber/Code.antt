-- ===== src/Control/BasicNumber/Code.antt =====
-- The guest's encoding of the numbers of src/Processors/ControlStorage/BasicNumber.cpp.
use sim.Base.{
  ℕ, ◌+◌, ◌<◌, bit_and, bit_or, Bool, true, false, not, some, List, [], ◌∷◌, ltb, ◌==◌,
  if◌then◌else◌, length, replicate, get_or, ◌≡◌, ◌⊎◌, inl, inr, refl, sym, ap, ap₂, ◌∙◌, arith,
  if-property, if_off,
}
use sim.Base.Table.{all_below, all_below_sound}
use sim.Control.BasicNumber.{
  Precision, short, long, pairs, encoded_size, BasicNumber, all_zero, is_zero, Decoding, decoded,
  malformed, exceeds_base, decode_digits, decode_bytes, decode, encode,
}

-- The digits fill their width, and a number is zero in one way only or has a first digit.
abbrev pub IsNumber : BasicNumber → Type 0
IsNumber n =
    (length n.digits ≡ pairs n.precision)
    × (n.exponent < 128)
    × (exceeds_base n.digits ≡ false)
    × (((all_zero n.digits ≡ true) × (n.sign ≡ false) × (n.exponent ≡ 0))
        ⊎ (0 < get_or n.digits 0 0))

abbrev pub lead_byte : Bool → ℕ → ℕ
lead_byte sign e = bit_or (if sign then 0x80 else 0) e

-- The first byte gives back the exponent and the sign, and they give back the byte.
lead_byte-exponent : (sign : Bool) (e : ℕ) → e < 128 → bit_and (lead_byte sign e) 0x7f ≡ e
unfolding all_below
lead_byte-exponent true e h =
    ground (arith, all_below_sound 128 (λ x. bit_and (lead_byte true x) 0x7f == x) e refl h)
lead_byte-exponent false e h =
    ground (arith, all_below_sound 128 (λ x. bit_and (lead_byte false x) 0x7f == x) e refl h)

lead_byte-sign : (sign : Bool) (e : ℕ) → e < 128 → not (bit_and (lead_byte sign e) 0x80 == 0) ≡ sign
unfolding all_below
lead_byte-sign true e h =
    all_below_sound 128 (λ x. not (bit_and (lead_byte true x) 0x80 == 0)) e refl h
lead_byte-sign false e h =
    ground (arith, all_below_sound 128 (λ x. bit_and (lead_byte false x) 0x80 == 0) e refl h)

lead_byte-again :
    (lead : ℕ) → lead < 256 → lead_byte (not (bit_and lead 0x80 == 0)) (bit_and lead 0x7f) ≡ lead
unfolding all_below
lead_byte-again lead h = ground (
  arith,
  all_below_sound 256 (λ x. lead_byte (not (bit_and x 0x80 == 0)) (bit_and x 0x7f) == x) lead refl
      h,
)

pub lead_byte-lt : (sign : Bool) (e : ℕ) → e < 128 → lead_byte sign e < 256
unfolding all_below
lead_byte-lt true e h =
    ground (arith, all_below_sound 128 (λ x. ltb (lead_byte true x) 256) e refl h)
lead_byte-lt false e h =
    ground (arith, all_below_sound 128 (λ x. ltb (lead_byte false x) 256) e refl h)

all_zero-replicate : (ds : List ℕ) → all_zero ds ≡ true → ds ≡ replicate (length ds) 0
all_zero-replicate [] h = refl
all_zero-replicate (d ∷ ds) h =
    ap₂ (λ x xs. x ∷ xs) (ground arith) (all_zero-replicate ds (ground arith))

some_digit : (ds : List ℕ) → 0 < get_or ds 0 0 → all_zero ds ≡ false
some_digit [] h = absurd (omega arith)
some_digit (d ∷ ds) h = ground arith

abbrev number_of : Precision → Bool → ℕ → List ℕ → BasicNumber
number_of p sign e ds = record { precision = p; sign = sign; exponent = e; digits = ds }

-- Bytes that are well formed are decoded.
pub decode_digits-decoded :
    (p : Precision) (lead : ℕ) (ds : List ℕ)
    → exceeds_base ds ≡ false
    → 0 < get_or ds 0 0
    → decode_digits p lead ds
      ≡ decoded (number_of p (not (bit_and lead 0x80 == 0)) (bit_and lead 0x7f) ds)
unfolding decode_digits
decode_digits-decoded p lead ds small first_digit =
    if_off (exceeds_base ds) _ _ small
    ∙ if_off (all_zero ds) _ _ (some_digit ds first_digit)
    ∙ if_off (get_or ds 0 0 == 0) _ _ (ground arith)

pub decode-width :
    (p : Precision) (lead : ℕ) (ds : List ℕ)
    → length ds ≡ pairs p
    → decode p (some (lead ∷ ds)) ≡ decode_digits p lead ds
unfolding decode decode_bytes
decode-width short lead ds h = rw h refl
decode-width long lead ds h = rw h refl

abbrev blank_digits : ℕ → List ℕ
blank_digits count = replicate count 0

zeros : (p : Precision) → blank_digits (encoded_size p) ≡ 0 ∷ blank_digits (pairs p)
zeros short = refl
zeros long = refl

encode-zero :
    (n : BasicNumber) → all_zero n.digits ≡ true → encode n ≡ 0 ∷ blank_digits (pairs n.precision)
unfolding encode is_zero
encode-zero n h = rw h (zeros n.precision)

encode-some :
    (n : BasicNumber)
    → all_zero n.digits ≡ false
    → encode n ≡ lead_byte n.sign n.exponent ∷ n.digits
unfolding encode is_zero
encode-some n h = rw h refl

decode-zero :
    (p : Precision)
    → decode p (some (0 ∷ blank_digits (pairs p)))
      ≡ decoded (number_of p false 0 (blank_digits (pairs p)))
unfolding decode decode_bytes decode_digits
decode-zero short = refl
decode-zero long = refl

blank_number :
    (n : BasicNumber)
    → length n.digits ≡ pairs n.precision
    → all_zero n.digits ≡ true
    → n.sign ≡ false
    → n.exponent ≡ 0
    → number_of n.precision false 0 (blank_digits (pairs n.precision)) ≡ n
blank_number n width blank plus flat =
    ap (λ s. number_of n.precision s 0 (blank_digits (pairs n.precision))) (sym plus)
    ∙ ap (λ e. number_of n.precision n.sign e (blank_digits (pairs n.precision))) (sym flat)
    ∙ ap (number_of n.precision n.sign n.exponent)
        (sym (all_zero-replicate n.digits blank ∙ ap blank_digits width))

-- A number that is encoded is decoded again.
pub decode-encode :
    (n : BasicNumber) → IsNumber n → decode n.precision (some (encode n)) ≡ decoded n
decode-encode n (width, in_byte, small, inl (blank, plus, flat)) =
    ap (λ bytes. decode n.precision (some bytes)) (encode-zero n blank)
    ∙ decode-zero n.precision
    ∙ ap decoded (blank_number n width blank plus flat)
decode-encode n (width, in_byte, small, inr first_digit) =
    ap (λ bytes. decode n.precision (some bytes)) (encode-some n (some_digit n.digits first_digit))
    ∙ decode-width n.precision (lead_byte n.sign n.exponent) n.digits width
    ∙ decode_digits-decoded n.precision (lead_byte n.sign n.exponent) n.digits small first_digit
    ∙ ap₂ (λ s e. decoded (number_of n.precision s e n.digits))
        (lead_byte-sign n.sign n.exponent in_byte) (lead_byte-exponent n.sign n.exponent in_byte)

-- The bytes are decoded to a number, whose encoding they are, or refused.
abbrev pub IsCode : Precision → List ℕ → Decoding → Type 0
IsCode p bytes (decoded n) = IsNumber n × (n.precision ≡ p) × (encode n ≡ bytes)
IsCode p bytes (malformed e) = Unit {0}

exponent_small : (lead : ℕ) → lead < 256 → bit_and lead 0x7f < 128
unfolding all_below
exponent_small lead h =
    ground (arith, all_below_sound 256 (λ x. ltb (bit_and x 0x7f) 128) lead refl h)

decode_digits-IsCode :
    (p : Precision) (lead : ℕ) (ds : List ℕ)
    → lead < 256
    → length ds ≡ pairs p
    → IsCode p (lead ∷ ds) (decode_digits p lead ds)
unfolding decode_digits
decode_digits-IsCode p lead ds byte width =
    let answer = number_of p (not (bit_and lead 0x80 == 0)) (bit_and lead 0x7f) ds in
    if-property (IsCode p (lead ∷ ds)) (exceeds_base ds) _ _ (λ large. tt)
      (λ small.
        if-property (IsCode p (lead ∷ ds)) (all_zero ds) _ _
          (λ blank.
            if-property (IsCode p (lead ∷ ds)) (not (lead == 0)) _ (decoded answer) (λ other. tt)
              (λ zero_lead.
                let none_set : lead ≡ 0 = ground arith in
                (
                  (
                    width,
                    exponent_small lead byte,
                    small,
                    inl (
                      blank,
                      ap (λ l. not (bit_and l 0x80 == 0)) none_set,
                      ap (λ l. bit_and l 0x7f) none_set,
                    ),
                  ),
                  refl,
                  encode-zero answer blank
                      ∙ ap₂ (λ l xs. l ∷ xs) (sym none_set)
                          (sym (all_zero-replicate ds blank ∙ ap blank_digits width)),
                )))
          (λ some_digits.
            if-property (IsCode p (lead ∷ ds)) (get_or ds 0 0 == 0) _ (decoded answer) (λ other. tt)
              (λ normal. (
                (width, exponent_small lead byte, small, inr (ground arith)),
                refl,
                encode-some answer some_digits ∙ ap (λ l. l ∷ ds) (lead_byte-again lead byte),
              ))))

width_of :
    (p : Precision) (ds : List ℕ) → (length ds + 1 == encoded_size p) ≡ true → length ds ≡ pairs p
width_of short ds h = ground arith
width_of long ds h = ground arith

decode_bytes-IsCode :
    (p : Precision) (bytes : List ℕ)
    → get_or bytes 0 0 < 256
    → IsCode p bytes (decode_bytes p bytes)
unfolding decode_bytes
decode_bytes-IsCode p [] byte = tt
decode_bytes-IsCode p (lead ∷ ds) byte =
    if-property (IsCode p (lead ∷ ds)) (length ds + 1 == encoded_size p) _ _
      (λ width. decode_digits-IsCode p lead ds byte (width_of p ds width)) (λ other. tt)

-- Whatever the bytes are, what is decoded of them is a number in its one form, and encodes as
-- the same bytes.
pub encode-decode :
    (p : Precision) (bytes : List ℕ)
    → get_or bytes 0 0 < 256
    → IsCode p bytes (decode p (some bytes))
unfolding decode
encode-decode p bytes byte = decode_bytes-IsCode p bytes byte
