-- ===== src/Machine/State/Stored.antt =====
-- Every access of main storage, inside and outside of it: src/Machine/MachineState.cpp.
use sim.Base.{
  ℕ, zero, suc, ◌+◌, ◌/◌, ◌%◌, ◌^◌, ◌≤◌, ◌<◌, ◌≡◌, refl, ap, ◌∙◌, ◌⊎◌, inl, inr, true, none, some,
  List, [], ◌∷◌, arith, length, get_or, subst,
}
use sim.Base.Int.{ℤ, pos, negsuc, pos_part}
use sim.Machine.State.Ints.{
  write_at, read_at, write_byte_at, read_byte_at, write_half_at, read_half_at, write_addr24_at,
  read_addr24_at,
}
use sim.Machine.State.{
  Machine, fault, poke, copy_in, write, read, read_byte, write_byte, read_half, write_half,
  read_addr24, write_addr24,
}
use sim.Machine.State.Access.{
  copy_in-outside, copy_in-head, copy_out-copy_in, in_range-true, in_range-false, write_ok, read_ok,
  read_byte_ok, write_byte_ok, write_half_ok, read_half_ok, write_addr24_ok, half_bytes,
  addr24_bytes, half_join, addr24_join,
}

-- The fault latch with the address and the length of an access.
abbrev pub latched : Machine → ℤ → (len : ℕ) → Machine
latched m a len = record m { faulted = true; fault_addr = a; fault_len = len }

-- Storage has changed to these bytes from `a` on, and nothing else has.
abbrev pub IsStored : Machine → ℕ → List ℕ → Machine → Type 0
IsStored m a bytes after =
    (f : ℕ → ℕ) × (after ≡ record m { storage = f })
    × ((i : ℕ) → i < length bytes → f (a + i) ≡ get_or bytes i 0)
    × ((b : ℕ) → (b < a) ⊎ (a + length bytes ≤ b) → f b ≡ m.storage b)

-- A write of bytes at `a`, and a read there, of either kind: inside of main storage and outside.
abbrev pub IsAccess :
    {T : Type 0}
    → Machine
    → ℤ
    → List ℕ
    → (after : Machine) → (reading : Machine → T × Machine) → (value nothing : T) → Type 0
IsAccess m a bytes after reading value nothing =
    ((k : ℕ) × (a ≡ pos k)
      × (k + length bytes ≤ m.size)
      × IsStored m k bytes after
      × (reading after ≡ (value, after)))
    ⊎ ((k : ℕ) → a ≡ pos k → m.size < k + length bytes)
      × (after ≡ latched m a (length bytes))
      × (reading m ≡ (nothing, latched m a (length bytes)))

not_inside : (m : Machine) (a n : ℕ) → m.size < a + n → (k : ℕ) → pos a ≡ pos k → m.size < k + n
not_inside m a n h k e = omega (arith, ap pos_part e)

below_zero : (m : Machine) (a n k : ℕ) → negsuc a ≡ pos k → m.size < k + n
below_zero m a n k e = cc

copy_in-inside :
    (f : ℕ → ℕ) (a : ℕ) (vs : List ℕ) (i : ℕ)
    → i < length vs
    → copy_in f a vs (a + i) ≡ get_or vs i 0
unfolding copy_in
copy_in-inside f a [] i h = absurd (omega arith)
copy_in-inside f a (v ∷ vs) zero h = ap (copy_in f a (v ∷ vs)) (omega arith) ∙ copy_in-head f a v vs
copy_in-inside f a (v ∷ vs) (suc i) h =
    ap (copy_in (poke f a v) (a + 1) vs) (omega arith)
    ∙ copy_in-inside (poke f a v) (a + 1) vs i (omega arith)

copy_in-IsStored :
    (m : Machine) (a : ℕ) (bytes : List ℕ)
    → IsStored m a bytes (record m { storage = copy_in m.storage a bytes })
copy_in-IsStored m a bytes = (
  copy_in m.storage a bytes,
  refl,
  copy_in-inside m.storage a bytes,
  copy_in-outside m.storage a bytes,
)

inside_or_not : (m : Machine) (a n : ℕ) → (a + n ≤ m.size) ⊎ (m.size < a + n)
inside_or_not m a n = ground arith

module _ (m : Machine) where
  block-IsAccess :
      (a : ℤ) (src : List ℕ)
      → IsAccess m a src (write_at m a src) (λ k. read_at k a (length src)) (some src) none
  unfolding write_at read_at write read fault
  block-IsAccess (negsuc a) src = inr (below_zero m a _, refl, refl)
  block-IsAccess (pos a) src = elim (inside_or_not m a (length src)) [
    | inl inside ↦
        let after = record m { storage = copy_in m.storage a src } in
        inl (
          rw (write_ok m a src inside, read_ok after a (length src) inside)
            (
              a,
              refl,
              inside,
              copy_in-IsStored m a src,
              ap (λ vs. (some vs, after)) (copy_out-copy_in m.storage a src),
            ))
    | inr outside ↦
        inr (rw (in_range-false m a (length src) outside) (not_inside m a _ outside, refl, refl))
  ]

  byte-IsAccess :
      (a : ℤ) (v : ℕ) → IsAccess m a (v ∷ []) (write_byte_at m a v) (λ k. read_byte_at k a) v 0
  unfolding write_byte_at read_byte_at write_byte read_byte fault copy_in
  byte-IsAccess (negsuc a) v = inr (below_zero m a _, refl, refl)
  byte-IsAccess (pos a) v = elim (inside_or_not m a 1) [
    | inl inside ↦
        let after = record m { storage = copy_in m.storage a (v ∷ []) } in
        inl (
          rw (write_byte_ok m a v (omega arith), read_byte_ok after a (omega arith))
            (
              a,
              refl,
              inside,
              copy_in-IsStored m a (v ∷ []),
              ap (λ b. (b, after)) (copy_in-head m.storage a v []),
            ))
    | inr outside ↦ inr (rw (in_range-false m a 1 outside) (not_inside m a _ outside, refl, refl))
  ]

  half-IsAccess :
      (a : ℤ) (v : ℕ)
      → v < 2 ^ 16
      → IsAccess m a (v / 256 ∷ v % 256 ∷ []) (write_half_at m a v) (λ k. read_half_at k a) v 0
  unfolding write_half_at read_half_at write_half read_half fault
  half-IsAccess (negsuc a) v small = inr (below_zero m a _, refl, refl)
  half-IsAccess (pos a) v small = elim (inside_or_not m a 2) [
    | inl inside ↦
        let after = record m { storage = copy_in m.storage a (half_bytes v) } in
        let top : v / 2 ^ 8 % 2 ^ 8 ≡ v / 256 = omega arith in
        inl (
          rw (write_half_ok m a v inside, read_half_ok after a inside)
            (
              a,
              refl,
              inside,
              subst (λ t. IsStored m a (t ∷ v % 256 ∷ []) after) top
                  (copy_in-IsStored m a (half_bytes v)),
              ap (λ h. (h, after)) (half_join m.storage a v small).0,
            ))
    | inr outside ↦ inr (rw (in_range-false m a 2 outside) (not_inside m a _ outside, refl, refl))
  ]

  addr24-IsAccess :
      (a : ℤ) (v : ℕ)
      → v < 2 ^ 24
      → IsAccess m a
          (v / 65536 ∷ v / 256 % 256 ∷ v % 256 ∷ [])
          (write_addr24_at m a v)
          (λ k. read_addr24_at k a)
          v
          0
  unfolding write_addr24_at read_addr24_at write_addr24 read_addr24 fault
  addr24-IsAccess (negsuc a) v small = inr (below_zero m a _, refl, refl)
  addr24-IsAccess (pos a) v small = elim (inside_or_not m a 3) [
    | inl inside ↦
        let after = record m { storage = copy_in m.storage a (addr24_bytes v) } in
        let top : v / 2 ^ 16 % 2 ^ 8 ≡ v / 65536 = omega arith in
        inl (
          rw (write_addr24_ok m a v inside, in_range-true after a 3 inside)
            (
              a,
              refl,
              inside,
              subst (λ t. IsStored m a (t ∷ v / 256 % 256 ∷ v % 256 ∷ []) after) top
                  (copy_in-IsStored m a (addr24_bytes v)),
              ap (λ h. (h, after)) (addr24_join m.storage a v small).0,
            ))
    | inr outside ↦ inr (rw (in_range-false m a 3 outside) (not_inside m a _ outside, refl, refl))
  ]

-- Every access at any address, of a block, a byte, a half word or a 24-bit address, the last two of a
-- value that has their width. When all of its bytes lie in main storage, a write stores them there, high byte first, changes nothing else, and is
-- read back. When one lies outside, or the address is negative, a write and a read latch a fault with
-- the address and the length, and nothing else changes; the read gives zero, or no block.
pub every-IsAccess :
    (m : Machine) (a : ℤ) (b v w : ℕ) (src : List ℕ)
    → v < 2 ^ 16
    → w < 2 ^ 24
    → IsAccess m a src (write_at m a src) (λ k. read_at k a (length src)) (some src) none
      × IsAccess m a (b ∷ []) (write_byte_at m a b) (λ k. read_byte_at k a) b 0
      × IsAccess m a (v / 256 ∷ v % 256 ∷ []) (write_half_at m a v) (λ k. read_half_at k a) v 0
      × IsAccess m a
          (w / 65536 ∷ w / 256 % 256 ∷ w % 256 ∷ [])
          (write_addr24_at m a w)
          (λ k. read_addr24_at k a)
          w
          0
every-IsAccess m a b v w src small wide = (
  block-IsAccess m a src,
  byte-IsAccess m a b,
  half-IsAccess m a v small,
  addr24-IsAccess m a w wide,
)
