-- ===== src/Storage/Ebcdic.antt =====
-- `Ebcdic` of src/Storage/Ebcdic.{h,cpp}: the code pages 500 and 037, each of which maps a byte to
-- one Latin-1 code point, and text as UTF-8. A string is the list of its bytes.
pub mod RoundTrip
mod Tests
use sim.Base.{
  ℕ, zero, suc, ◌+◌, ◌-◌, ◌*◌, ◌/◌, ◌%◌, ◌^◌, bit_and, bit_or, Bool, true, false, not, ◌&&◌, ◌||◌,
  Option, none, some, List, [], ◌∷◌, ◌++◌, ltb, leb, ◌==◌, if◌then◌else◌, length, take, drop,
  get_or,
}

pub data CodePage : Type 0 where
  cp500 : CodePage
  cp037 : CodePage

abbrev pub substitute : ℕ
substitute = 0x6f

abbrev pub cp500_table : List ℕ
cp500_table =
    0x00 ∷ 0x01 ∷ 0x02 ∷ 0x03 ∷ 0x9c ∷ 0x09 ∷ 0x86 ∷ 0x7f ∷ 0x97 ∷ 0x8d ∷ 0x8e ∷ 0x0b ∷ 0x0c ∷ 0x0d
    ∷ 0x0e ∷ 0x0f ∷ 0x10 ∷ 0x11 ∷ 0x12 ∷ 0x13 ∷ 0x9d ∷ 0x85 ∷ 0x08 ∷ 0x87 ∷ 0x18 ∷ 0x19 ∷ 0x92
    ∷ 0x8f ∷ 0x1c ∷ 0x1d ∷ 0x1e ∷ 0x1f ∷ 0x80 ∷ 0x81 ∷ 0x82 ∷ 0x83 ∷ 0x84 ∷ 0x0a ∷ 0x17 ∷ 0x1b
    ∷ 0x88 ∷ 0x89 ∷ 0x8a ∷ 0x8b ∷ 0x8c ∷ 0x05 ∷ 0x06 ∷ 0x07 ∷ 0x90 ∷ 0x91 ∷ 0x16 ∷ 0x93 ∷ 0x94
    ∷ 0x95 ∷ 0x96 ∷ 0x04 ∷ 0x98 ∷ 0x99 ∷ 0x9a ∷ 0x9b ∷ 0x14 ∷ 0x15 ∷ 0x9e ∷ 0x1a ∷ 0x20 ∷ 0xa0
    ∷ 0xe2 ∷ 0xe4 ∷ 0xe0 ∷ 0xe1 ∷ 0xe3 ∷ 0xe5 ∷ 0xe7 ∷ 0xf1 ∷ 0x5b ∷ 0x2e ∷ 0x3c ∷ 0x28 ∷ 0x2b
    ∷ 0x21 ∷ 0x26 ∷ 0xe9 ∷ 0xea ∷ 0xeb ∷ 0xe8 ∷ 0xed ∷ 0xee ∷ 0xef ∷ 0xec ∷ 0xdf ∷ 0x5d ∷ 0x24
    ∷ 0x2a ∷ 0x29 ∷ 0x3b ∷ 0x5e ∷ 0x2d ∷ 0x2f ∷ 0xc2 ∷ 0xc4 ∷ 0xc0 ∷ 0xc1 ∷ 0xc3 ∷ 0xc5 ∷ 0xc7
    ∷ 0xd1 ∷ 0xa6 ∷ 0x2c ∷ 0x25 ∷ 0x5f ∷ 0x3e ∷ 0x3f ∷ 0xf8 ∷ 0xc9 ∷ 0xca ∷ 0xcb ∷ 0xc8 ∷ 0xcd
    ∷ 0xce ∷ 0xcf ∷ 0xcc ∷ 0x60 ∷ 0x3a ∷ 0x23 ∷ 0x40 ∷ 0x27 ∷ 0x3d ∷ 0x22 ∷ 0xd8 ∷ 0x61 ∷ 0x62
    ∷ 0x63 ∷ 0x64 ∷ 0x65 ∷ 0x66 ∷ 0x67 ∷ 0x68 ∷ 0x69 ∷ 0xab ∷ 0xbb ∷ 0xf0 ∷ 0xfd ∷ 0xfe ∷ 0xb1
    ∷ 0xb0 ∷ 0x6a ∷ 0x6b ∷ 0x6c ∷ 0x6d ∷ 0x6e ∷ 0x6f ∷ 0x70 ∷ 0x71 ∷ 0x72 ∷ 0xaa ∷ 0xba ∷ 0xe6
    ∷ 0xb8 ∷ 0xc6 ∷ 0xa4 ∷ 0xb5 ∷ 0x7e ∷ 0x73 ∷ 0x74 ∷ 0x75 ∷ 0x76 ∷ 0x77 ∷ 0x78 ∷ 0x79 ∷ 0x7a
    ∷ 0xa1 ∷ 0xbf ∷ 0xd0 ∷ 0xdd ∷ 0xde ∷ 0xae ∷ 0xa2 ∷ 0xa3 ∷ 0xa5 ∷ 0xb7 ∷ 0xa9 ∷ 0xa7 ∷ 0xb6
    ∷ 0xbc ∷ 0xbd ∷ 0xbe ∷ 0xac ∷ 0x7c ∷ 0xaf ∷ 0xa8 ∷ 0xb4 ∷ 0xd7 ∷ 0x7b ∷ 0x41 ∷ 0x42 ∷ 0x43
    ∷ 0x44 ∷ 0x45 ∷ 0x46 ∷ 0x47 ∷ 0x48 ∷ 0x49 ∷ 0xad ∷ 0xf4 ∷ 0xf6 ∷ 0xf2 ∷ 0xf3 ∷ 0xf5 ∷ 0x7d
    ∷ 0x4a ∷ 0x4b ∷ 0x4c ∷ 0x4d ∷ 0x4e ∷ 0x4f ∷ 0x50 ∷ 0x51 ∷ 0x52 ∷ 0xb9 ∷ 0xfb ∷ 0xfc ∷ 0xf9
    ∷ 0xfa ∷ 0xff ∷ 0x5c ∷ 0xf7 ∷ 0x53 ∷ 0x54 ∷ 0x55 ∷ 0x56 ∷ 0x57 ∷ 0x58 ∷ 0x59 ∷ 0x5a ∷ 0xb2
    ∷ 0xd4 ∷ 0xd6 ∷ 0xd2 ∷ 0xd3 ∷ 0xd5 ∷ 0x30 ∷ 0x31 ∷ 0x32 ∷ 0x33 ∷ 0x34 ∷ 0x35 ∷ 0x36 ∷ 0x37
    ∷ 0x38 ∷ 0x39 ∷ 0xb3 ∷ 0xdb ∷ 0xdc ∷ 0xd9 ∷ 0xda ∷ 0x9f ∷ []

abbrev pub cp037_table : List ℕ
cp037_table =
    0x00 ∷ 0x01 ∷ 0x02 ∷ 0x03 ∷ 0x9c ∷ 0x09 ∷ 0x86 ∷ 0x7f ∷ 0x97 ∷ 0x8d ∷ 0x8e ∷ 0x0b ∷ 0x0c ∷ 0x0d
    ∷ 0x0e ∷ 0x0f ∷ 0x10 ∷ 0x11 ∷ 0x12 ∷ 0x13 ∷ 0x9d ∷ 0x85 ∷ 0x08 ∷ 0x87 ∷ 0x18 ∷ 0x19 ∷ 0x92
    ∷ 0x8f ∷ 0x1c ∷ 0x1d ∷ 0x1e ∷ 0x1f ∷ 0x80 ∷ 0x81 ∷ 0x82 ∷ 0x83 ∷ 0x84 ∷ 0x0a ∷ 0x17 ∷ 0x1b
    ∷ 0x88 ∷ 0x89 ∷ 0x8a ∷ 0x8b ∷ 0x8c ∷ 0x05 ∷ 0x06 ∷ 0x07 ∷ 0x90 ∷ 0x91 ∷ 0x16 ∷ 0x93 ∷ 0x94
    ∷ 0x95 ∷ 0x96 ∷ 0x04 ∷ 0x98 ∷ 0x99 ∷ 0x9a ∷ 0x9b ∷ 0x14 ∷ 0x15 ∷ 0x9e ∷ 0x1a ∷ 0x20 ∷ 0xa0
    ∷ 0xe2 ∷ 0xe4 ∷ 0xe0 ∷ 0xe1 ∷ 0xe3 ∷ 0xe5 ∷ 0xe7 ∷ 0xf1 ∷ 0xa2 ∷ 0x2e ∷ 0x3c ∷ 0x28 ∷ 0x2b
    ∷ 0x7c ∷ 0x26 ∷ 0xe9 ∷ 0xea ∷ 0xeb ∷ 0xe8 ∷ 0xed ∷ 0xee ∷ 0xef ∷ 0xec ∷ 0xdf ∷ 0x21 ∷ 0x24
    ∷ 0x2a ∷ 0x29 ∷ 0x3b ∷ 0xac ∷ 0x2d ∷ 0x2f ∷ 0xc2 ∷ 0xc4 ∷ 0xc0 ∷ 0xc1 ∷ 0xc3 ∷ 0xc5 ∷ 0xc7
    ∷ 0xd1 ∷ 0xa6 ∷ 0x2c ∷ 0x25 ∷ 0x5f ∷ 0x3e ∷ 0x3f ∷ 0xf8 ∷ 0xc9 ∷ 0xca ∷ 0xcb ∷ 0xc8 ∷ 0xcd
    ∷ 0xce ∷ 0xcf ∷ 0xcc ∷ 0x60 ∷ 0x3a ∷ 0x23 ∷ 0x40 ∷ 0x27 ∷ 0x3d ∷ 0x22 ∷ 0xd8 ∷ 0x61 ∷ 0x62
    ∷ 0x63 ∷ 0x64 ∷ 0x65 ∷ 0x66 ∷ 0x67 ∷ 0x68 ∷ 0x69 ∷ 0xab ∷ 0xbb ∷ 0xf0 ∷ 0xfd ∷ 0xfe ∷ 0xb1
    ∷ 0xb0 ∷ 0x6a ∷ 0x6b ∷ 0x6c ∷ 0x6d ∷ 0x6e ∷ 0x6f ∷ 0x70 ∷ 0x71 ∷ 0x72 ∷ 0xaa ∷ 0xba ∷ 0xe6
    ∷ 0xb8 ∷ 0xc6 ∷ 0xa4 ∷ 0xb5 ∷ 0x7e ∷ 0x73 ∷ 0x74 ∷ 0x75 ∷ 0x76 ∷ 0x77 ∷ 0x78 ∷ 0x79 ∷ 0x7a
    ∷ 0xa1 ∷ 0xbf ∷ 0xd0 ∷ 0xdd ∷ 0xde ∷ 0xae ∷ 0x5e ∷ 0xa3 ∷ 0xa5 ∷ 0xb7 ∷ 0xa9 ∷ 0xa7 ∷ 0xb6
    ∷ 0xbc ∷ 0xbd ∷ 0xbe ∷ 0x5b ∷ 0x5d ∷ 0xaf ∷ 0xa8 ∷ 0xb4 ∷ 0xd7 ∷ 0x7b ∷ 0x41 ∷ 0x42 ∷ 0x43
    ∷ 0x44 ∷ 0x45 ∷ 0x46 ∷ 0x47 ∷ 0x48 ∷ 0x49 ∷ 0xad ∷ 0xf4 ∷ 0xf6 ∷ 0xf2 ∷ 0xf3 ∷ 0xf5 ∷ 0x7d
    ∷ 0x4a ∷ 0x4b ∷ 0x4c ∷ 0x4d ∷ 0x4e ∷ 0x4f ∷ 0x50 ∷ 0x51 ∷ 0x52 ∷ 0xb9 ∷ 0xfb ∷ 0xfc ∷ 0xf9
    ∷ 0xfa ∷ 0xff ∷ 0x5c ∷ 0xf7 ∷ 0x53 ∷ 0x54 ∷ 0x55 ∷ 0x56 ∷ 0x57 ∷ 0x58 ∷ 0x59 ∷ 0x5a ∷ 0xb2
    ∷ 0xd4 ∷ 0xd6 ∷ 0xd2 ∷ 0xd3 ∷ 0xd5 ∷ 0x30 ∷ 0x31 ∷ 0x32 ∷ 0x33 ∷ 0x34 ∷ 0x35 ∷ 0x36 ∷ 0x37
    ∷ 0x38 ∷ 0x39 ∷ 0xb3 ∷ 0xdb ∷ 0xdc ∷ 0xd9 ∷ 0xda ∷ 0x9f ∷ []

abbrev pub forward_for : CodePage → List ℕ
forward_for cp500 = cp500_table
forward_for cp037 = cp037_table

unfoldable pub to_unicode : ℕ → CodePage → ℕ
to_unicode b page = get_or (forward_for page) b 0

-- The first byte from `b` on that the table maps to the code point.
unfoldable pub reverse_from : (code_point b : ℕ) → List ℕ → Option ℕ
reverse_from code_point b [] = none
reverse_from code_point b (cp ∷ rest) =
    let later = reverse_from code_point (b + 1) rest in if cp == code_point then some b else later

abbrev pub or_substitute : Option ℕ → ℕ
or_substitute none = substitute
or_substitute (some b) = b

unfoldable pub from_char : (code_point : ℕ) → CodePage → ℕ
from_char code_point page =
    if ltb code_point 256
    then or_substitute (reverse_from code_point 0 (forward_for page))
    else substitute

-- The UTF-8 bytes of a code point.
unfoldable pub utf8 : ℕ → List ℕ
utf8 cp =
    if ltb cp 0x80
    then cp ∷ []
    else if ltb cp 0x800
    then bit_or 0xc0 (cp / 2 ^ 6) ∷ bit_or 0x80 (bit_and cp 0x3f) ∷ []
    else if ltb cp 0x10000
    then bit_or 0xe0 (cp / 2 ^ 12)
      ∷ bit_or 0x80 (bit_and (cp / 2 ^ 6) 0x3f)
      ∷ bit_or 0x80 (bit_and cp 0x3f)
      ∷ []
    else bit_or 0xf0 (cp / 2 ^ 18)
      ∷ bit_or 0x80 (bit_and (cp / 2 ^ 12) 0x3f)
      ∷ bit_or 0x80 (bit_and (cp / 2 ^ 6) 0x3f)
      ∷ bit_or 0x80 (bit_and cp 0x3f)
      ∷ []

unfoldable pub to_ascii : List ℕ → CodePage → List ℕ
to_ascii [] page = []
to_ascii (b ∷ bs) page = utf8 (to_unicode b page) ++ to_ascii bs page

-- The part of the bytes from `offset` on, cut at their end.
unfoldable pub to_ascii_part : List ℕ → (offset length : ℕ) → CodePage → List ℕ
to_ascii_part bytes offset count page =
    if ltb (length bytes) offset then [] else to_ascii (take count (drop offset bytes)) page

abbrev pub replacement : ℕ
replacement = 0xfffd

-- The continuation bytes of a sequence: the code point, or the replacement of a sequence that is cut
-- short or has another byte. With it goes the number of bytes taken.
unfoldable pub continuation : (extra taken cp : ℕ) → List ℕ → ℕ × ℕ
continuation zero taken cp rest = (cp, taken)
continuation (suc extra) taken cp [] = (replacement, 1)
continuation (suc extra) taken cp (b ∷ rest) =
    let more = continuation extra (taken + 1) (bit_or (cp * 2 ^ 6) (bit_and b 0x3f)) rest in
    if bit_and b 0xc0 == 0x80 then more else (replacement, 1)

-- The code point at the head of a text that is not empty, and its bytes.
unfoldable pub next_code_point : (first : ℕ) → List ℕ → ℕ × ℕ
next_code_point b0 rest =
    if ltb b0 0x80
    then (b0, 1)
    else if bit_and b0 0xe0 == 0xc0
    then continuation 1 1 (bit_and b0 0x1f) rest
    else if bit_and b0 0xf0 == 0xe0
    then continuation 2 1 (bit_and b0 0x0f) rest
    else if bit_and b0 0xf8 == 0xf0
    then continuation 3 1 (bit_and b0 0x07) rest
    else (replacement, 1)

abbrev pub push_byte : ℕ → Option (List ℕ) → Option (List ℕ)
push_byte b none = none
push_byte b (some rest) = some (b ∷ rest)

-- Every code point takes a byte at least, so that the text's length is fuel enough.
unfoldable pub from_ascii_loop : (fuel : ℕ) → List ℕ → CodePage → Option (List ℕ)
from_ascii_loop fuel [] page = some []
from_ascii_loop zero (b ∷ bs) page = none
from_ascii_loop (suc fuel) (b ∷ bs) page =
    let (cp, taken) = next_code_point b bs in
    push_byte (from_char cp page) (from_ascii_loop fuel (drop (taken - 1) bs) page)

unfoldable pub from_ascii : List ℕ → CodePage → Option (List ℕ)
from_ascii text page = from_ascii_loop (length text) text page
