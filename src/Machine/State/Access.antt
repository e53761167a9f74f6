-- ===== src/Machine/State/Access.antt =====
-- Reads and writes of main storage, inside and outside of it.
use sim.Base.{
  ℕ, ◌+◌, ◌*◌, ◌/◌, ◌%◌, ◌^◌, ◌≤◌, ◌<◌, ◌≡◌, refl, ap₂, ◌∙◌, ◌⊎◌, bit_or, true, false, some, List,
  [], ◌∷◌, arith, length,
}
use sim.Base.Int.{pos}
use sim.Base.Bits.{or_fields}
use sim.Machine.State.{
  Machine, in_range, poke, copy_in, copy_out, write, read, read_byte, write_byte, read_half,
  write_half, read_addr24, write_addr24,
}

-- `memcpy` writes nothing outside its target.
pub copy_in-outside :
    (f : ℕ → ℕ) (a : ℕ) (vs : List ℕ) (b : ℕ)
    → (b < a) ⊎ (a + length vs ≤ b)
    → copy_in f a vs b ≡ f b
unfolding copy_in
copy_in-outside f a [] b h = refl
copy_in-outside f a (v ∷ vs) b h = ground (arith, copy_in-outside (poke f a v) (a + 1) vs b)

pub copy_in-head : (f : ℕ → ℕ) (a v : ℕ) (vs : List ℕ) → copy_in f a (v ∷ vs) a ≡ v
unfolding copy_in
copy_in-head f a v vs = ground (arith, copy_in-outside (poke f a v) (a + 1) vs a)

copy_out-shift :
    (f : ℕ → ℕ) (a v : ℕ) (vs : List ℕ)
    → copy_out (copy_in f a (v ∷ vs)) (a + 1) (length vs)
      ≡ copy_out (copy_in (poke f a v) (a + 1) vs) (a + 1) (length vs)
unfolding copy_in
copy_out-shift f a v vs = refl

pub copy_out-copy_in :
    (f : ℕ → ℕ) (a : ℕ) (vs : List ℕ) → copy_out (copy_in f a vs) a (length vs) ≡ vs
unfolding copy_out
copy_out-copy_in f a [] = refl
copy_out-copy_in f a (v ∷ vs) =
    ap₂ ◌∷◌ (copy_in-head f a v vs)
      (copy_out-shift f a v vs ∙ copy_out-copy_in (poke f a v) (a + 1) vs)

pub in_range-true : (m : Machine) (a n : ℕ) → a + n ≤ m.size → in_range m (pos a) n ≡ true
unfolding in_range
in_range-true m a n h = ground arith

pub in_range-false : (m : Machine) (a n : ℕ) → m.size < a + n → in_range m (pos a) n ≡ false
unfolding in_range
in_range-false m a n h = ground arith

module _ (m : Machine) (a : ℕ) where
  pub write_ok :
      (src : List ℕ)
      → a + length src ≤ m.size
      → write m a src ≡ record m { storage = copy_in m.storage a src }
  unfolding write
  write_ok src h = rw (in_range-true m a (length src) h)

  pub read_ok : (n : ℕ) → a + n ≤ m.size → read m a n ≡ (some (copy_out m.storage a n), m)
  unfolding read
  read_ok n h = rw (in_range-true m a n h)

  pub read_byte_ok : a < m.size → read_byte m a ≡ (m.storage a, m)
  unfolding read_byte
  read_byte_ok h = rw (in_range-true m a 1 (omega arith))

  pub write_byte_ok :
      (v : ℕ) → a < m.size → write_byte m a v ≡ record m { storage = poke m.storage a v }
  unfolding write_byte copy_in
  write_byte_ok v h = rw (in_range-true m a 1 (omega arith)) (write_ok (v ∷ []) (omega arith))

abbrev pub half_bytes : ℕ → List ℕ
half_bytes v = v / 2 ^ 8 % 2 ^ 8 ∷ v % 2 ^ 8 ∷ []

abbrev pub addr24_bytes : ℕ → List ℕ
addr24_bytes v = v / 2 ^ 16 % 2 ^ 8 ∷ v / 2 ^ 8 % 2 ^ 8 ∷ v % 2 ^ 8 ∷ []

pub half_join :
    (f : ℕ → ℕ) (a v : ℕ)
    → v < 2 ^ 16
    → let g = copy_in f a (half_bytes v) in (bit_or (g a * 2 ^ 8) (g (a + 1)) ≡ v) × (g a ≡ v / 256)
unfolding copy_in
half_join f a v h = ground (arith, or_fields 8 (v / 2 ^ 8 % 2 ^ 8) (v % 2 ^ 8))

pub addr24_join :
    (f : ℕ → ℕ) (a v : ℕ)
    → v < 2 ^ 24
    → let g = copy_in f a (addr24_bytes v) in
      (bit_or (bit_or (g a * 2 ^ 16) (g (a + 1) * 2 ^ 8)) (g (a + 2)) ≡ v) × (g a ≡ v / 65536)
unfolding copy_in
addr24_join f a v h = ground (
  arith,
  or_fields 16 (v / 2 ^ 16 % 2 ^ 8) (v / 2 ^ 8 % 2 ^ 8 * 2 ^ 8),
  or_fields 8 (v / 2 ^ 16 % 2 ^ 8 * 2 ^ 8 + v / 2 ^ 8 % 2 ^ 8) (v % 2 ^ 8),
)

module _ (m : Machine) (a : ℕ) where
  pub write_half_ok :
      (v : ℕ)
      → a + 2 ≤ m.size
      → write_half m a v ≡ record m { storage = copy_in m.storage a (half_bytes v) }
  unfolding write_half
  write_half_ok v h = rw (in_range-true m a 2 h) (write_ok m a (half_bytes v) h)

  pub write_addr24_ok :
      (v : ℕ)
      → a + 3 ≤ m.size
      → write_addr24 m a v ≡ record m { storage = copy_in m.storage a (addr24_bytes v) }
  unfolding write_addr24
  write_addr24_ok v h = rw (in_range-true m a 3 h) (write_ok m a (addr24_bytes v) h)

  pub read_half_ok :
      a + 2 ≤ m.size → read_half m a ≡ (bit_or (m.storage a * 2 ^ 8) (m.storage (a + 1)), m)
  unfolding read_half
  read_half_ok h = rw (in_range-true m a 2 h)

  pub read_addr24_ok :
      a + 3 ≤ m.size
      → (read_addr24 m a).0
        ≡ bit_or (bit_or (m.storage a * 2 ^ 16) (m.storage (a + 1) * 2 ^ 8)) (m.storage (a + 2))
  unfolding read_addr24
  read_addr24_ok h = rw (in_range-true m a 3 h)

-- A half word and a 24-bit address that fit in main storage are read back as they were written,
-- and lie there high byte first.
pub big_endian :
    (m : Machine) (a v w : ℕ)
    → a + 3 ≤ m.size
    → v < 2 ^ 16
    → w < 2 ^ 24
    → ((read_half (write_half m a v) a).0 ≡ v)
      × ((write_half m a v).storage a ≡ v / 256)
      × ((read_addr24 (write_addr24 m a w) a).0 ≡ w)
      × ((write_addr24 m a w).storage a ≡ w / 65536)
big_endian m a v w h hv hw =
    let two : a + 2 ≤ m.size = omega arith in
    let half = record m { storage = copy_in m.storage a (half_bytes v) } in
    let addr24 = record m { storage = copy_in m.storage a (addr24_bytes w) } in
    let (whole, high) = half_join m.storage a v hv in
    let (whole24, high24) = addr24_join m.storage a w hw in
    rw
      (
        write_half_ok m a v two,
        read_half_ok half a two,
        write_addr24_ok m a w h,
        read_addr24_ok addr24 a h,
      )
      (whole, high, whole24, high24)
