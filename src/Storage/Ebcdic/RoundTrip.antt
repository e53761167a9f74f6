-- ===== src/Storage/Ebcdic/RoundTrip.antt =====
-- Text to bytes and back in the code pages of src/Storage/Ebcdic.cpp.
use sim.Base.{
  inl, inr, ◌⊎◌, length-append, length-drop, not, ℕ, zero, suc, ◌-◌, ◌*◌, ◌/◌, ◌^◌, ◌≤◌, ◌<◌,
  bit_and, bit_or, Bool, true, ◌&&◌, Option, none, some, List, [], ◌∷◌, ◌++◌, ltb, ◌==◌,
  if◌then◌else◌, length, drop, All, ◌≡◌, ◌≢◌, refl, ap, ◌∙◌, arith,
}
use sim.Base.Table.{all_below, all_below_sound, eq_by_table}
use sim.Storage.Ebcdic.{
  push_byte, CodePage, cp500, cp037, to_unicode, reverse_from, from_char, utf8, to_ascii,
  continuation, next_code_point, from_ascii_loop, from_ascii,
}

-- Both pages are one to one: a byte's code point leads back to the byte.
from_char-to_unicode : (page : CodePage) (b : ℕ) → b < 256 → from_char (to_unicode b page) page ≡ b
unfolding to_unicode from_char reverse_from all_below
from_char-to_unicode cp500 b small =
    eq_by_table 256 (λ y. from_char (to_unicode y cp500) cp500) (λ y. y) b refl small
from_char-to_unicode cp037 b small =
    eq_by_table 256 (λ y. from_char (to_unicode y cp037) cp037) (λ y. y) b refl small

to_unicode-latin : (page : CodePage) (b : ℕ) → b < 256 → to_unicode b page < 256
unfolding to_unicode all_below
to_unicode-latin cp500 b small =
    ground (arith, all_below_sound 256 (λ y. ltb (to_unicode y cp500) 256) b refl small)
to_unicode-latin cp037 b small =
    ground (arith, all_below_sound 256 (λ y. ltb (to_unicode y cp037) 256) b refl small)

ltb_cases : (cp : ℕ) → (cp < 0x80) ⊎ (0x80 ≤ cp)
ltb_cases cp = ground arith

abbrev lead : ℕ → ℕ
lead cp = bit_or 0xc0 (cp / 2 ^ 6)

abbrev trail : ℕ → ℕ
trail cp = bit_or 0x80 (bit_and cp 0x3f)

-- What the decoder asks of the two bytes of a code point from 0x80 on.
unfoldable two_bytes : ℕ → Bool
two_bytes cp =
    if ltb cp 0x80
    then true
    else not (ltb (lead cp) 0x80)
      && (bit_and (lead cp) 0xe0 == 0xc0
          && (bit_and (trail cp) 0xc0 == 0x80
              && bit_or (bit_and (lead cp) 0x1f * 2 ^ 6) (bit_and (trail cp) 0x3f) == cp))

two_bytes-latin : (cp : ℕ) → cp < 256 → two_bytes cp ≡ true
unfolding two_bytes all_below
two_bytes-latin cp small = all_below_sound 256 two_bytes cp refl small

continuation-two :
    (cp : ℕ) (rest : List ℕ)
    → (bit_and (trail cp) 0xc0 == 0x80) ≡ true
    → continuation 1 1 (bit_and (lead cp) 0x1f) (trail cp ∷ rest)
      ≡ (bit_or (bit_and (lead cp) 0x1f * 2 ^ 6) (bit_and (trail cp) 0x3f), 2)
unfolding continuation
continuation-two cp rest h = rw h refl

next_code_point-two :
    (cp : ℕ) (rest : List ℕ)
    → cp < 256
    → 0x80 ≤ cp
    → next_code_point (lead cp) (trail cp ∷ rest) ≡ (cp, 2)
unfolding next_code_point two_bytes
next_code_point-two cp rest small large =
    ground (arith, two_bytes-latin cp small, continuation-two cp rest)

next_code_point-low : (cp : ℕ) (rest : List ℕ) → cp < 0x80 → next_code_point cp rest ≡ (cp, 1)
unfolding next_code_point
next_code_point-low cp rest h = ground arith

utf8-low : (cp : ℕ) → cp < 0x80 → utf8 cp ≡ cp ∷ []
unfolding utf8
utf8-low cp h = ground arith

utf8-high : (cp : ℕ) → 0x80 ≤ cp → cp < 256 → utf8 cp ≡ lead cp ∷ trail cp ∷ []
unfolding utf8
utf8-high cp h l = ground arith

-- What the decoder does with a code point and the bytes that it has taken after the first.
decoded : (fuel : ℕ) → List ℕ → CodePage → ℕ × ℕ → Option (List ℕ)
decoded fuel bs page (cp, taken) =
    push_byte (from_char cp page) (from_ascii_loop fuel (drop (taken - 1) bs) page)

from_ascii_loop-next :
    (fuel b : ℕ) (bs : List ℕ) (page : CodePage)
    → from_ascii_loop (suc fuel) (b ∷ bs) page ≡ decoded fuel bs page (next_code_point b bs)
unfolding from_ascii_loop decoded
from_ascii_loop-next fuel b bs page = refl

-- One step of the decoder takes the bytes of one code point.
from_ascii_loop-utf8 :
    (fuel cp : ℕ) (rest : List ℕ) (page : CodePage)
    → cp < 256
    → from_ascii_loop (suc fuel) (utf8 cp ++ rest) page
      ≡ push_byte (from_char cp page) (from_ascii_loop fuel rest page)
unfolding decoded
from_ascii_loop-utf8 fuel cp rest page small = elim (ltb_cases cp) [
  | inl low ↦
      ap (λ t. from_ascii_loop (suc fuel) (t ++ rest) page) (utf8-low cp low)
      ∙ from_ascii_loop-next fuel cp rest page
      ∙ ap (decoded fuel rest page) (next_code_point-low cp rest low)
  | inr high ↦
      ap (λ t. from_ascii_loop (suc fuel) (t ++ rest) page) (utf8-high cp high small)
      ∙ from_ascii_loop-next fuel (lead cp) (trail cp ∷ rest) page
      ∙ ap (decoded fuel (trail cp ∷ rest) page) (next_code_point-two cp rest small high)
]

from_ascii_loop-to_ascii :
    (bytes : List ℕ) (fuel : ℕ) (page : CodePage)
    → All (λ b. b < 256) bytes
    → length bytes ≤ fuel
    → from_ascii_loop fuel (to_ascii bytes page) page ≡ some bytes
unfolding to_ascii from_ascii_loop
from_ascii_loop-to_ascii [] fuel page bounded enough = refl
from_ascii_loop-to_ascii (b ∷ bs) zero page bounded enough = absurd (omega arith)
from_ascii_loop-to_ascii (b ∷ bs) (suc fuel) page (small, bounded) enough =
    from_ascii_loop-utf8 fuel (to_unicode b page) (to_ascii bs page) page
      (to_unicode-latin page b small)
    ∙ ap (λ c. push_byte c (from_ascii_loop fuel (to_ascii bs page) page))
        (from_char-to_unicode page b small)
    ∙ ap (push_byte b) (from_ascii_loop-to_ascii bs fuel page bounded (omega arith))

utf8-some : (cp : ℕ) → 1 ≤ length (utf8 cp)
unfolding utf8
utf8-some cp = ground arith

length-to_ascii : (bytes : List ℕ) (page : CodePage) → length bytes ≤ length (to_ascii bytes page)
unfolding to_ascii
length-to_ascii [] page = omega arith
length-to_ascii (b ∷ bs) page = omega (
  arith,
  length-to_ascii bs page,
  utf8-some (to_unicode b page),
  length-append (utf8 (to_unicode b page)) (to_ascii bs page),
)

-- Bytes that are shown as text and read back are the same bytes, in both code pages.
pub from_ascii-to_ascii :
    (bytes : List ℕ) (page : CodePage)
    → All (λ b. b < 256) bytes
    → from_ascii (to_ascii bytes page) page ≡ some bytes
unfolding from_ascii
from_ascii-to_ascii bytes page bounded =
    from_ascii_loop-to_ascii bytes (length (to_ascii bytes page)) page bounded
      (length-to_ascii bytes page)

push_byte-some : (b : ℕ) (o : Option (List ℕ)) → o ≢ none → push_byte b o ≢ none
push_byte-some b none h = absurd (h refl)
push_byte-some b (some rest) h = λ e. cc

from_ascii_loop-ends :
    (fuel : ℕ) (text : List ℕ) (page : CodePage)
    → length text ≤ fuel
    → from_ascii_loop fuel text page ≢ none
unfolding from_ascii_loop
from_ascii_loop-ends fuel [] page enough = λ e. cc
from_ascii_loop-ends zero (b ∷ bs) page enough = absurd (omega arith)
from_ascii_loop-ends (suc fuel) (b ∷ bs) page enough =
    let taken = (next_code_point b bs).1 in
    push_byte-some _ _ (
      from_ascii_loop-ends fuel (drop (taken - 1) bs) page
        (omega (arith, length-drop (taken - 1) bs)))

-- Any text, malformed or not, is encoded.
from_ascii-ends : (text : List ℕ) (page : CodePage) → from_ascii text page ≢ none
unfolding from_ascii
from_ascii-ends text page = from_ascii_loop-ends (length text) text page (omega arith)
