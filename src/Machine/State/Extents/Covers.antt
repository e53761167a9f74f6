-- ===== src/Machine/State/Extents/Covers.antt =====
-- The extents of a translated transfer are its bytes, each translated on its own.
use sim.Base.{
  ℕ, zero, suc, ◌+◌, ◌-◌, ◌%◌, ◌≤◌, ◌<◌, ◌≡◌, refl, sym, ap, ap₂, subst, ◌∙◌, ◌⊎◌, inl, inr, Bool,
  List, [], ◌∷◌, ◌++◌, arith, ◌==◌, ==_iff, Bool-cases, length, length-append,
}
use mathlib.Core.List.{append_assoc, append-nil}
use sim.Base.Bits.{and_low}
use sim.Machine.State.{Machine, IsSound, StorageProtection, Resolution, real, protection, translate}
use sim.Machine.State.Translate.{translate-same_page}
use sim.Machine.State.Extents.{
  Extents, Extent, extents, refused, out_of_fuel, push_extent, run_length, extents_loop,
  translated_extents,
}

-- The addresses `a`, `a + 1`, … of a run.
abbrev pub run : ℕ → ℕ → List ℕ
run a zero = []
run a (suc n) = a ∷ run (a + 1) n

-- The real address of each byte, in transfer order.
abbrev pub expand : Extents → List ℕ
expand [] = []
expand ((a, n) ∷ es) = run a n ++ expand es

-- The real address of each byte of a transfer from `at` is the translation of its own logical
-- address, which wraps at 64 KB.
abbrev pub Covers : Machine → ℕ → Bool → ℕ → List ℕ → Type 0
Covers m base w at [] = Unit {0}
Covers m base w at (r ∷ rs) =
    (translate m at base w ≡ real r) × Covers m base w ((at + 1) % 0x10000) rs

length-run : (a n : ℕ) → length (run a n) ≡ n
length-run a zero = refl
length-run a (suc n) = ap suc (length-run (a + 1) n)

suc_add : (k n : ℕ) → suc k + n ≡ suc (k + n)
suc_add k n = omega arith

run-append : (a k n : ℕ) → run a (k + n) ≡ run a k ++ run (a + k) n
run-append a zero n = ap₂ run (omega arith) (omega arith)
run-append a (suc k) n =
    ap (run a) (suc_add k n)
    ∙ ap (◌∷◌ a) (run-append (a + 1) k n ∙ ap (λ b. run (a + 1) k ++ run b n) (omega arith))

expand-push_extent :
    (es : Extents) (at n : ℕ) → expand (push_extent es at n) ≡ expand es ++ run at n
unfolding push_extent
expand-push_extent [] at n = append-nil (run at n)
expand-push_extent ((a, k) ∷ []) at n = elim (Bool-cases (a + k == at)) [
  | inl next ↦
      rw (next, append-nil (run a k), append-nil (run a (k + n)))
        (run-append a k n ∙ ap (λ b. run a k ++ run b n) ((==_iff (a + k) at).0 next))
  | inr apart ↦ rw (apart, append-nil (run at n), append-nil (run a k))
]
expand-push_extent ((a, k) ∷ e ∷ es) at n =
    ap (◌++◌ (run a k)) (expand-push_extent (e ∷ es) at n)
    ∙ sym (append_assoc (run a k) (expand (e ∷ es)) (run at n))

module _ (m : Machine) (base : ℕ) (w : Bool) where
  Covers-append :
      (at : ℕ) (xs ys : List ℕ)
      → at < 0x10000
      → Covers m base w at xs
      → Covers m base w ((at + length xs) % 0x10000) ys
      → Covers m base w at (xs ++ ys)
  Covers-append at [] ys h c d = subst (λ b. Covers m base w b ys) (omega arith) d
  Covers-append at (x ∷ xs) ys h c d = (
    c.0,
    Covers-append ((at + 1) % 0x10000) xs ys (omega arith) c.1
        (subst (λ b. Covers m base w b ys) (omega arith) d),
  )

  Covers-run :
      (n at r : ℕ)
      → IsSound m
      → at < 0x10000
      → at % 2048 + n ≤ 2048
      → translate m at base w ≡ real r
      → Covers m base w at (run r n)
  Covers-run zero at r s h fits e = tt
  Covers-run (suc zero) at r s h fits e = (e, tt)
  Covers-run (suc (suc n)) at r s h fits e =
      let same : at + 1 ≡ (at + 1) % 0x10000 = omega arith in
      (
        e,
        subst (λ b. Covers m base w b (run (r + 1) (suc n))) same
            (Covers-run (suc n) (at + 1) (r + 1) s (omega arith) (omega arith)
              (translate-same_page m at base 1 r w s h (omega arith) e)),
      )

-- What a transfer of `len` bytes from `at` comes to: every byte translated, or the violation that
-- one of its bytes raises.
abbrev pub IsTransfer : Machine → ℕ → Bool → ℕ → ℕ → Extent → Type 0
IsTransfer m base w at len (extents es) =
    (length (expand es) ≡ len) × Covers m base w at (expand es)
IsTransfer m base w at len (refused p) =
    (i : ℕ) × (i < len) × (translate m ((at + i) % 0x10000) base w ≡ protection p)
IsTransfer m base w at len out_of_fuel = ⊥

pub run_length_bounds :
    (at left : ℕ)
    → 0 < left
    → (0 < run_length at left)
      × (run_length at left ≤ left)
      × (at % 2048 + run_length at left ≤ 2048)
unfolding run_length
run_length_bounds at left h = ground (arith, and_low 11 at)

Resolution-cases :
    (x : Resolution) → ((r : ℕ) × (x ≡ real r)) ⊎ ((p : StorageProtection) × (x ≡ protection p))
Resolution-cases (real r) = inl (r, refl)
Resolution-cases (protection p) = inr (p, refl)

extents_loop-refused :
    (fuel : ℕ) (m : Machine) (base at left : ℕ) (w : Bool) (es : Extents) {p : StorageProtection}
    → 0 < left
    → translate m at base w ≡ protection p
    → extents_loop (suc fuel) m base at left w es ≡ refused p
unfolding extents_loop
extents_loop-refused fuel m base at left w es h e = ground arith

extents_loop-more :
    (fuel : ℕ) (m : Machine) (base at left : ℕ) (w : Bool) (es : Extents) {r : ℕ}
    → 0 < left
    → translate m at base w ≡ real r
    → extents_loop (suc fuel) m base at left w es
      ≡ extents_loop fuel m base
          ((at + run_length at left) % 0x10000)
          (left - run_length at left)
          w
          (push_extent es r (run_length at left))
unfolding extents_loop
extents_loop-more fuel m base at left w es h e =
    ground (arith, and_low 16 (at + run_length at left))

module _ (m : Machine) (base : ℕ) (w : Bool) (s : IsSound m) (start len : ℕ)
    (h : start < 0x10000) where
  extents_loop-IsTransfer :
      (fuel at left : ℕ) (es : Extents)
      → left < fuel
      → length (expand es) + left ≡ len
      → at ≡ (start + length (expand es)) % 0x10000
      → Covers m base w start (expand es)
      → IsTransfer m base w start len (extents_loop fuel m base at left w es)
  unfolding extents_loop
  extents_loop-IsTransfer zero at left es f l a c = absurd (omega arith)
  extents_loop-IsTransfer (suc fuel) at zero es f l a c = (omega arith, c)
  extents_loop-IsTransfer (suc fuel) at (suc left) es f l a c =
      elim (Resolution-cases (translate m at base w)) [
        | inr (p, e) ↦
            rw (extents_loop-refused fuel m base at (suc left) w es (omega arith) e) (
              length (expand es),
              omega arith,
              subst (λ b. translate m b base w ≡ protection p) a e,
            )
        | inl (r, e) ↦
            let n = run_length at (suc left) in
            let b = run_length_bounds at (suc left) (omega arith) in
            let more = expand-push_extent es r n in
            let size = ap length more ∙ length-append (expand es) (run r n) in
            let whole = size ∙ ap (λ k. length (expand es) + k) (length-run r n) in
            rw (extents_loop-more fuel m base at (suc left) w es (omega arith) e) (
              extents_loop-IsTransfer fuel ((at + n) % 0x10000) (suc left - n) (push_extent es r n)
                (omega arith) (omega arith) (omega arith)
                (rw more (
                  Covers-append m base w start (expand es) (run r n) h c (
                    subst (λ b. Covers m base w b (run r n)) a
                      (Covers-run m base w n at r s (omega arith) b.2 e)))))
      ]

-- A transfer of `len` bytes through the translation registers always comes to an end. Either its
-- extents list, byte for byte and in order, the real address that the byte's own logical address
-- (which wraps at 64 KB) translates to, `len` of them; or it reports the violation that one of its
-- bytes raises.
pub translated_extents-IsTransfer :
    (m : Machine) (logical base len : ℕ) (w : Bool)
    → IsSound m
    → logical < 0x10000
    → IsTransfer m base w logical len (translated_extents m logical base len w)
unfolding translated_extents
translated_extents-IsTransfer m logical base len w s h =
    extents_loop-IsTransfer m base w s logical len h (suc len) logical len [] (omega arith)
      (omega arith) (omega arith) tt
