-- ===== src/Control/Elements/Links.antt =====
-- The links of queued elements, in
-- src/Processors/ControlStorage/ActionControlElementQueue.cpp.
use sim.Base.{
  if-property, ℕ, zero, suc, ◌+◌, ◌*◌, ◌/◌, ◌%◌, ◌^◌, ◌≤◌, ◌<◌, ◌≡◌, ◌⊎◌, inl, inr, refl, sym, ap,
  ap₂, subst, ◌∙◌, bit_or, List, [], ◌∷◌, ◌++◌, ◌==◌, All, arith, length,
}
use sim.Machine.State.{Machine, copy_in, read_addr24, write_addr24}
use sim.Machine.State.Access.{in_range-true, copy_in-outside, write_addr24_ok, big_endian}
use sim.Control.Elements.{tail, chain}

-- The 24-bit number at an address.
abbrev pub link : (ℕ → ℕ) → ℕ → ℕ
link f a = bit_or (bit_or (f a * 2 ^ 16) (f (a + 1) * 2 ^ 8)) (f (a + 2))

-- Two fields of three bytes share none.
abbrev pub Apart : ℕ → ℕ → Type 0
Apart a b = (a + 3 ≤ b) ⊎ (b + 3 ≤ a)

-- The elements that the links make up from an address on.
abbrev pub IsChain : (ℕ → ℕ) → ℕ → ℕ → List ℕ → Type 0
IsChain f size at [] = at ≡ 0
IsChain f size at (x ∷ xs) =
    (at ≡ x) × (0 < x) × (x + 5 ≤ size) × IsChain f size (link f (x + 2)) xs

-- The links of the elements share no byte.
abbrev pub Spread : List ℕ → Type 0
Spread [] = Unit {0}
Spread (x ∷ xs) = All (λ (y : ℕ). Apart (x + 2) (y + 2)) xs × Spread xs

pub link_machine : (m : Machine) (a : ℕ) → a + 3 ≤ m.size → read_addr24 m a ≡ (link m.storage a, m)
unfolding read_addr24
link_machine m a h = rw (in_range-true m a 3 h)

-- Storage with a link replaced.
abbrev pub replace : (ℕ → ℕ) → ℕ → ℕ → ℕ → ℕ
replace f a v = copy_in f a (v / 2 ^ 16 % 2 ^ 8 ∷ v / 2 ^ 8 % 2 ^ 8 ∷ v % 2 ^ 8 ∷ [])

module _ (m : Machine) (a v : ℕ) (fits : a + 3 ≤ m.size) where
  pub replace_machine : write_addr24 m a v ≡ record m { storage = replace m.storage a v }
  replace_machine = write_addr24_ok m a v fits

  pub replace_same : v < 2 ^ 24 → link (replace m.storage a v) a ≡ v
  replace_same small =
      let g : Machine = record m { storage = replace m.storage a v } in
      sym (ap (λ (p : ℕ × Machine). p.0) (link_machine g a fits))
      ∙ ap (λ (x : Machine). (read_addr24 x a).0) (sym replace_machine)
      ∙ (big_endian m a 0 v fits (omega arith) small).2

pub replace_apart : (f : ℕ → ℕ) (a v b : ℕ) → Apart a b → link (replace f a v) b ≡ link f b
replace_apart f a v b h =
    let bytes = v / 2 ^ 16 % 2 ^ 8 ∷ v / 2 ^ 8 % 2 ^ 8 ∷ v % 2 ^ 8 ∷ [] in
    let first = copy_in-outside f a bytes b (ground (arith, h)) in
    let second = copy_in-outside f a bytes (b + 1) (ground (arith, h)) in
    let third = copy_in-outside f a bytes (b + 2) (ground (arith, h)) in
    ap₂ bit_or (ap₂ (λ x y. bit_or (x * 2 ^ 16) (y * 2 ^ 8)) first second) third

pub IsChain-replace :
    (f : ℕ → ℕ) (size a v at : ℕ) (xs : List ℕ)
    → All (λ (x : ℕ). Apart a (x + 2)) xs
    → IsChain f size at xs
    → IsChain (replace f a v) size at xs
IsChain-replace f size a v at [] apart c = c
IsChain-replace f size a v at (x ∷ xs) (h, hs) (same, positive, fits, c) = (
  same,
  positive,
  fits,
  subst (λ n. IsChain (replace f a v) size n xs) (sym (replace_apart f a v (x + 2) h))
      (IsChain-replace f size a v (link f (x + 2)) xs hs c),
)

abbrev pub last : ℕ → List ℕ → ℕ
last x [] = x
last x (y ∷ ys) = last y ys

pub apart_last :
    (a x : ℕ) (xs : List ℕ)
    → Apart a (x + 2)
    → All (λ (y : ℕ). Apart a (y + 2)) xs
    → Apart a (last x xs + 2)
apart_last a x [] h hs = h
apart_last a x (y ∷ ys) h (k, ks) = apart_last a y ys k ks

pub apart_sym : (a b : ℕ) → Apart a b → Apart b a
apart_sym a b (inl h) = inr h
apart_sym a b (inr h) = inl h

pub chain-list :
    (guard at : ℕ) (m : Machine) (xs : List ℕ)
    → IsChain m.storage m.size at xs
    → length xs ≤ guard
    → (chain guard at m).0 ≡ xs
unfolding chain
chain-list zero at m [] c enough = refl
chain-list zero at m (x ∷ xs) c enough = absurd (omega arith)
chain-list (suc guard) at m [] c enough =
    if-property (λ (p : List ℕ × Machine). p.0 ≡ []) (at == 0) _ _ (λ h. refl)
      (λ h. absurd (ground (arith, c)))
chain-list (suc guard) at m (x ∷ xs) (same, positive, fits, c) enough =
    let c' = subst (λ n. IsChain m.storage m.size (link m.storage (n + 2)) xs) (sym same) c in
    let rest = chain-list guard (link m.storage (at + 2)) m xs c' (omega arith) in
    rw (link_machine m (at + 2) (omega arith)) (
      if-property (λ (p : List ℕ × Machine). p.0 ≡ x ∷ xs) (at == 0) _ _
        (λ h. absurd (ground arith)) (λ h. ap₂ ◌∷◌ same rest))

pub tail-last :
    (guard at : ℕ) (m : Machine) (x : ℕ) (xs : List ℕ)
    → IsChain m.storage m.size at (x ∷ xs)
    → length xs < guard
    → tail guard at m ≡ (last x xs, m)
unfolding tail
tail-last zero at m x xs c enough = absurd (omega arith)
tail-last (suc guard) at m x [] (same, positive, fits, c) enough =
    let next : link m.storage (at + 2) ≡ 0 = ap (λ n. link m.storage (n + 2)) same ∙ c in
    rw (link_machine m (at + 2) (omega arith)) (
      if-property (λ (p : ℕ × Machine). p ≡ (x, m)) (link m.storage (at + 2) == 0) _ _
        (λ h. ap (λ n. (n, m)) same) (λ h. absurd (ground (arith, next))))
tail-last (suc guard) at m x (y ∷ ys) (same, positive, fits, c) enough =
    let c' = subst (λ n. IsChain m.storage m.size (link m.storage (n + 2)) (y ∷ ys)) (sym same) c in
    let rest = tail-last guard (link m.storage (at + 2)) m y ys c' (omega arith) in
    rw (link_machine m (at + 2) (omega arith)) (
      if-property (λ (p : ℕ × Machine). p ≡ (last y ys, m)) (link m.storage (at + 2) == 0) _ _
        (λ h. absurd (ground (arith, c'.0, c'.1))) (λ h. rest))

-- A chain with an element more behind its last.
pub IsChain-extend :
    (m : Machine) (ace at x : ℕ) (xs : List ℕ)
    → IsChain m.storage m.size at (x ∷ xs)
    → Spread (x ∷ xs)
    → All (λ (y : ℕ). Apart (ace + 2) (y + 2)) (x ∷ xs)
    → link m.storage (ace + 2) ≡ 0
    → 0 < ace
    → ace < 2 ^ 24
    → ace + 5 ≤ m.size
    → IsChain (replace m.storage (last x xs + 2) ace) m.size at (x ∷ xs ++ ace ∷ [])
IsChain-extend m ace at x [] (same, positive, fits, c) spread (far, f) ended p small room =
    let g = replace m.storage (x + 2) ace in
    let here : link g (x + 2) ≡ ace = replace_same m (x + 2) ace (omega arith) small in
    let end : link g (ace + 2) ≡ 0 =
      replace_apart m.storage (x + 2) ace (ace + 2) (apart_sym (ace + 2) (x + 2) far) ∙ ended in
    (same, positive, fits, (here, p, room, end))
IsChain-extend m ace at x (y ∷ ys) (same, positive, fits, c) ((a, as'), spread) (far, f) ended p
      small room =
    let l = last y ys in
    let kept =
      replace_apart m.storage (l + 2) ace (x + 2)
        (apart_sym (x + 2) (l + 2) (apart_last (x + 2) y ys a as')) in
    (
      same,
      positive,
      fits,
      subst (λ n. IsChain (replace m.storage (l + 2) ace) m.size n (y ∷ ys ++ ace ∷ [])) (sym kept)
          (IsChain-extend m ace (link m.storage (x + 2)) y ys c spread f ended p small room),
    )
