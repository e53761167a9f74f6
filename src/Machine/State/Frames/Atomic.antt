-- ===== src/Machine/State/Frames/Atomic.antt =====
-- `writePageFrames` writes all of its source, each byte to its own place, or nothing.
use sim.Base.{
  ℕ, zero, suc, ◌+◌, ◌-◌, ◌*◌, ◌/◌, ◌%◌, ◌^◌, ◌≤◌, ◌<◌, ◌≡◌, refl, sym, ap, subst, ltb→lt, ◌∙◌, ◌⊎◌,
  ◌≢◌, inl, inr, Bool, true, false, Option, none, some, List, [], ◌∷◌, arith, ltb, ◌==◌, Bool-cases,
  length, take, drop, get_or, length-take_le, length-drop,
}
use native.Mathlib.Nat.{add_assoc}
use sim.Base.Bits.{and_low}
use sim.Base.Int.{ℤ, pos, negsuc, pos_part, ◌+ℤ◌}
use sim.Machine.State.{Machine, in_range, poke, copy_in}
use sim.Machine.State.Access.{write_ok, in_range-true}
use sim.Machine.State.Ints.{write_at}
use sim.Machine.State.Extents.{run_length}
use sim.Machine.State.Extents.Covers.{run_length_bounds}
use sim.Machine.State.Frames.{
  place, absent, Validation, valid, invalid, out_of_fuel, validate, copy_frames, write_checked,
  write_page_frames,
}

-- The frame of the 2 KB page of a displacement, and the address of its byte. A page behind the last
-- frame has none.
abbrev pub frame_at : List ℤ → ℕ → ℤ
frame_at frames at = get_or frames (at / 2048) (pos 0)

abbrev pub address : List ℤ → ℕ → ℤ
address frames at = frame_at frames at +ℤ pos (at % 2048)

place-address : (frames : List ℤ) (at : ℕ) → place frames at ≡ address frames at
unfolding place
place-address frames at = ap (λ k. frame_at frames at +ℤ pos k) (and_low 11 at)

-- The bytes stored one after another, each at the address of its own displacement.
pub scatter : (ℕ → ℕ) → List ℤ → ℕ → List ℕ → ℕ → ℕ
scatter f frames at [] = f
scatter f frames at (v ∷ vs) = scatter (poke f (pos_part (address frames at)) v) frames (at + 1) vs

place-next :
    (frames : List ℤ) (at a n : ℕ)
    → at % 2048 + n < 2048
    → place frames at ≡ pos a
    → place frames (at + n) ≡ pos (a + n)
unfolding place
place-next frames at a n h e =
    let page : (at + n) / 2 ^ 11 ≡ at / 2 ^ 11 = omega arith in
    ground (arith, ap (λ k. get_or frames k (pos 0)) page, and_low 11 at, and_low 11 (at + n))

scatter-chunk :
    (frames : List ℤ) (k : ℕ) (f : ℕ → ℕ) (at a : ℕ) (vs : List ℕ)
    → k ≤ length vs
    → at % 2048 + k ≤ 2048
    → place frames at ≡ pos a
    → scatter f frames at vs ≡ scatter (copy_in f a (take k vs)) frames (at + k) (drop k vs)
unfolding scatter copy_in
scatter-chunk frames zero f at a vs h fits e = ap (λ b. scatter f frames b vs) (omega arith)
scatter-chunk frames (suc k) f at a [] h fits e = absurd (omega arith)
scatter-chunk frames (suc zero) f at a (v ∷ vs) h fits e = rw (sym (place-address frames at) ∙ e)
scatter-chunk frames (suc (suc k)) f at a (v ∷ vs) h fits e =
    rw (sym (place-address frames at) ∙ e) (
      scatter-chunk frames (suc k) (poke f a v) (at + 1) (a + 1) vs (omega arith) (omega arith)
        (place-next frames at a 1 (omega arith) e)
      ∙ ap
          (λ b. scatter (copy_in (poke f a v) (a + 1) (take (suc k) vs)) frames b (drop (suc k) vs))
          (omega arith))

in_range-pos :
    (m : Machine) (z : ℤ) (n : ℕ) → in_range m z n ≡ true → (a : ℕ) × (z ≡ pos a) × (a + n ≤ m.size)
unfolding in_range
in_range-pos m (pos a) n h = (a, refl, ground arith)
in_range-pos m (negsuc a) n h = ground arith

module _ (frames : List ℤ) where
  validate-more :
      (m : Machine) (fuel at left : ℕ)
      → 0 < left
      → validate (suc fuel) m frames at left ≡ valid
      → (absent (get_or frames (at / 2 ^ 11) (pos 0)) ≡ false)
        × (in_range m (place frames at) (run_length at left) ≡ true)
        × (validate fuel m frames (at + run_length at left) (left - run_length at left) ≡ valid)
  unfolding validate
  validate-more m fuel at left h v = ground arith

  copy_frames-more :
      (m : Machine) (fuel at : ℕ) (src : List ℕ)
      → 0 < length src
      → copy_frames (suc fuel) m frames at src
        ≡ copy_frames fuel
            (write_at m (place frames at) (take (run_length at (length src)) src))
            frames
            (at + run_length at (length src))
            (drop (run_length at (length src)) src)
  unfolding copy_frames
  copy_frames-more m fuel at src h = ground arith

  write_at_ok :
      (m : Machine) (z : ℤ) (a : ℕ) (src : List ℕ)
      → z ≡ pos a
      → a + length src ≤ m.size
      → write_at m z src ≡ record m { storage = copy_in m.storage a src }
  unfolding write_at
  write_at_ok m z a src e h = rw e (write_ok m a src h)

module _ (frames : List ℤ) (m : Machine) where
  copy_frames-scatter :
      (fuel at : ℕ) (f : ℕ → ℕ) (src : List ℕ)
      → length src < fuel
      → validate fuel m frames at (length src) ≡ valid
      → copy_frames fuel (record m { storage = f }) frames at src
        ≡ some (record m { storage = scatter f frames at src })
  unfolding scatter copy_frames
  copy_frames-scatter zero at f src h v = absurd (omega arith)
  copy_frames-scatter (suc fuel) at f [] h v = refl
  copy_frames-scatter (suc fuel) at f (x ∷ xs) h v =
      let src : List ℕ = x ∷ xs in
      let n = run_length at (length src) in
      let b = run_length_bounds at (length src) (omega arith) in
      let (present, here, later) = validate-more frames m fuel at (length src) (omega arith) v in
      let (a, e, fits) = in_range-pos m (place frames at) n here in
      let taken = length-take_le n src b.1 in
      let rest = length-drop n src in
      copy_frames-more frames (record m { storage = f }) fuel at src (omega arith)
      ∙ ap (λ k. copy_frames fuel k frames (at + n) (drop n src))
          (write_at_ok frames (record m { storage = f }) (place frames at) a (take n src) e
            (omega arith))
      ∙ copy_frames-scatter fuel (at + n) (copy_in f a (take n src)) (drop n src) (omega arith)
          (rw rest later)
      ∙ ap (λ g. some (record m { storage = g }))
          (sym (scatter-chunk frames n f at a src b.1 b.2 e))

validate-ends :
    (fuel : ℕ) (m : Machine) (frames : List ℤ) (at left : ℕ)
    → left < fuel
    → validate fuel m frames at left ≢ out_of_fuel
unfolding validate
validate-ends zero m frames at left h = absurd (omega arith)
validate-ends (suc fuel) m frames at zero h = λ e. ground arith
validate-ends (suc fuel) m frames at (suc left) h =
    let b = run_length_bounds at (suc left) (omega arith) in
    ground (
      arith,
      validate-ends fuel m frames (at + run_length at (suc left))
          (suc left - run_length at (suc left)) (omega arith),
    )

Validation-cases : (v : Validation) → v ≢ out_of_fuel → (v ≡ valid) ⊎ (v ≡ invalid)
Validation-cases valid h = inl refl
Validation-cases invalid h = inr refl
Validation-cases out_of_fuel h = absurd (h refl)

write_checked-valid :
    (m : Machine) (frames : List ℤ) (at : ℕ) (src : List ℕ)
    → validate (suc (length src)) m frames at (length src) ≡ valid
    → write_checked m frames at src
      ≡ some (true, record m { storage = scatter m.storage frames at src })
unfolding write_checked
write_checked-valid m frames at src v =
    ground (arith, copy_frames-scatter frames m (suc (length src)) at m.storage src (omega arith) v)

write_checked-invalid :
    (m : Machine) (frames : List ℤ) (at : ℕ) (src : List ℕ)
    → validate (suc (length src)) m frames at (length src) ≡ invalid
    → write_checked m frames at src ≡ some (false, m)
unfolding write_checked
write_checked-invalid m frames at src v = ground arith

abbrev pub written : Machine → List ℤ → ℕ → List ℕ → Option (Bool × Machine)
written m frames at src = some (true, record m { storage = scatter m.storage frames at src })

scatter-nothing : (m : Machine) (frames : List ℤ) (at : ℕ) → written m frames at [] ≡ some (true, m)
unfolding scatter
scatter-nothing m frames at = refl

take-zero : (n : ℕ) (xs : List ℕ) → (n == 0) ≡ true → take n xs ≡ []
take-zero zero xs h = refl
take-zero (suc n) xs h = ground arith

-- Each of `n` bytes from displacement `at` has a frame and lies in main storage.
abbrev AllPlaced : Machine → List ℤ → ℕ → ℕ → Type 0
AllPlaced m frames at n =
    (i : ℕ)
    → i < n
    → (absent (get_or frames ((at + i) / 2 ^ 11) (pos 0)) ≡ false)
      × (in_range m (place frames (at + i)) 1 ≡ true)

chunk-in_range :
    (m : Machine) (frames : List ℤ) (at n : ℕ)
    → 0 < n
    → at % 2048 + n ≤ 2048
    → in_range m (place frames at) 1 ≡ true
    → in_range m (place frames (at + (n - 1))) 1 ≡ true
    → in_range m (place frames at) n ≡ true
chunk-in_range m frames at n h fits first last =
    let (a, e, low) = in_range-pos m (place frames at) 1 first in
    let end = place-next frames at a (n - 1) (omega arith) e in
    let (b, e', high) = in_range-pos m (place frames (at + (n - 1))) 1 last in
    rw e (in_range-true m a n (omega (arith, ap pos_part (sym end ∙ e'))))

AllPlaced-valid :
    (m : Machine) (frames : List ℤ) (fuel at left : ℕ)
    → left < fuel
    → AllPlaced m frames at left
    → validate fuel m frames at left ≡ valid
unfolding validate
AllPlaced-valid m frames zero at left h p = absurd (omega arith)
AllPlaced-valid m frames (suc fuel) at zero h p = refl
AllPlaced-valid m frames (suc fuel) at (suc left) h p =
    let n = run_length at (suc left) in
    let b = run_length_bounds at (suc left) (omega arith) in
    let first = p 0 (omega arith) in
    let here : in_range m (place frames at) n ≡ true =
      chunk-in_range m frames at n b.0 b.2
        (subst (λ k. in_range m (place frames k) 1 ≡ true) (omega arith) first.1)
        (p (n - 1) (omega arith)).1 in
    let zeroth : at + 0 ≡ at = omega arith in
    let present = subst (λ k. absent (get_or frames (k / 2 ^ 11) (pos 0)) ≡ false) zeroth first.0 in
    let later : AllPlaced m frames (at + n) (suc left - n) = λ i lt.
      subst
        (λ k.
          (absent (get_or frames (k / 2 ^ 11) (pos 0)) ≡ false)
          × (in_range m (place frames k) 1 ≡ true))
        (sym (add_assoc at n i)) (p (n + i) (omega arith)) in
    let rest = AllPlaced-valid m frames fuel (at + n) (suc left - n) (omega arith) later in
    ground (arith, present, here, rest)

valid-AllPlaced :
    (m : Machine) (frames : List ℤ) (fuel at left : ℕ)
    → validate fuel m frames at left ≡ valid
    → AllPlaced m frames at left
unfolding validate
valid-AllPlaced m frames zero at left v i lt = ground (arith, v)
valid-AllPlaced m frames (suc fuel) at left v i lt =
    let n = run_length at left in
    let b = run_length_bounds at left (omega arith) in
    let (present, here, later) = validate-more frames m fuel at left (omega arith) v in
    let (a, e, fits) = in_range-pos m (place frames at) n here in
    elim (Bool-cases (ltb i n)) [
      | inl in_chunk ↦
          let near : i < n = ltb→lt i n in_chunk in
          let page : (at + i) / 2 ^ 11 ≡ at / 2 ^ 11 = omega arith in
          (
            ap (λ k. absent (get_or frames k (pos 0))) page ∙ present,
            ap (λ z. in_range m z 1) (place-next frames at a i (omega arith) e)
                ∙ in_range-true m (a + i) 1 (omega arith),
          )
      | inr behind ↦
          let far : n ≤ i = ground arith in
          let index : at + n + (i - n) ≡ at + i = omega arith in
          subst
            (λ k.
              (absent (get_or frames (k / 2 ^ 11) (pos 0)) ≡ false)
              × (in_range m (place frames k) 1 ≡ true))
            index (valid-AllPlaced m frames fuel (at + n) (left - n) later (i - n) (omega arith))
    ]

absent-false : (z : ℤ) → z ≢ pos 0 → absent z ≡ false
unfolding absent
absent-false (pos zero) h = absurd (h refl)
absent-false (pos (suc n)) h = ground arith
absent-false (negsuc n) h = refl

present_frame : (z : ℤ) → absent z ≡ false → z ≢ pos 0
unfolding absent
present_frame z h = λ e. ground (arith, sym (ap absent e) ∙ h)

-- A byte has a frame that is not absent, and lies in main storage.
abbrev pub IsPlaced : Machine → List ℤ → ℕ → Type 0
IsPlaced m frames at =
    (frame_at frames at ≢ pos 0) × (a : ℕ) × (address frames at ≡ pos a) × (a < m.size)

place-IsPlaced :
    (m : Machine) (frames : List ℤ) (at : ℕ)
    → (absent (get_or frames (at / 2 ^ 11) (pos 0)) ≡ false)
    → (in_range m (place frames at) 1 ≡ true)
    → IsPlaced m frames at
place-IsPlaced m frames at present inside =
    let (a, e, fits) = in_range-pos m (place frames at) 1 inside in
    (present_frame (frame_at frames at) present, a, sym (place-address frames at) ∙ e, omega arith)

IsPlaced-byte :
    (m : Machine) (frames : List ℤ) (at : ℕ)
    → IsPlaced m frames at
    → (absent (get_or frames (at / 2 ^ 11) (pos 0)) ≡ false)
      × (in_range m (place frames at) 1 ≡ true)
IsPlaced-byte m frames at (present, a, e, fits) = (
  absent-false (frame_at frames at) present,
  ap (λ z. in_range m z 1) (place-address frames at ∙ e) ∙ in_range-true m a 1 (omega arith),
)

-- What `writePageFrames` has to accept: no bytes at all; or a source that is not null, for a range
-- that lies in the frames, each of whose bytes is placed.
abbrev pub IsAccepted : Machine → List ℤ → (d : ℤ) → Option (List ℕ) → (len : ℤ) → Type 0
IsAccepted m frames (pos d) none (pos n) = n ≡ 0
IsAccepted m frames (pos d) (some src) (pos n) =
    (n ≡ 0) ⊎ (d + n ≤ length frames * 2048) × ((i : ℕ) → i < n → IsPlaced m frames (d + i))
IsAccepted m frames (pos d) source (negsuc n) = ⊥
IsAccepted m frames (negsuc d) source len = ⊥

-- The bytes behind the pointer.
abbrev pub bytes_of : Option (List ℕ) → List ℕ
bytes_of none = []
bytes_of (some src) = src

-- A source that is not null holds the bytes that are to be written.
abbrev pub IsReadable : Option (List ℕ) → ℤ → Type 0
IsReadable none len = Unit {0}
IsReadable (some src) len = pos_part len ≤ length src

-- The two outcomes.
abbrev pub IsOutcome : Machine → List ℤ → (d : ℤ) → Option (List ℕ) → (len : ℤ) → Type 0
IsOutcome m frames d source len =
    IsAccepted m frames d source len
      × (write_page_frames m frames d source len
          ≡ written m frames (pos_part d) (take (pos_part len) (bytes_of source)))
    ⊎ ¬ IsAccepted m frames d source len
      × (write_page_frames m frames d source len ≡ some (false, m))

checked-IsOutcome :
    (m : Machine) (frames : List ℤ) (d n : ℕ) (source : List ℕ)
    → n ≤ length source
    → (n == 0) ≡ false
    → ltb (length frames * 2048) (d + n) ≡ false
    → IsOutcome m frames (pos d) (some source) (pos n)
unfolding write_page_frames
checked-IsOutcome m frames d n source enough some_left within =
    let src = take n source in
    let size = length-take_le n source enough in
    let fuel = suc (length src) in
    elim (Validation-cases (validate fuel m frames d (length src))
      (validate-ends fuel m frames d (length src) (omega arith))) [
        | inl v ↦
            let all = valid-AllPlaced m frames fuel d (length src) v in
            inl (
              inr (
                ground arith,
                λ i lt.
                    let (present, inside) = all i (omega (arith, size, lt)) in
                    place-IsPlaced m frames (d + i) present inside,
              ),
              rw (some_left, within) (write_checked-valid m frames d src v),
            )
        | inr v ↦ inr (
          λ ok. elim ok [
            | inl none_left ↦ ground arith
            | inr (fits, placed) ↦
                let all : AllPlaced m frames d (length src) =
                  λ i lt. IsPlaced-byte m frames (d + i) (placed i (omega (arith, size, lt))) in
                ground (arith, AllPlaced-valid m frames fuel d (length src) (omega arith) all, v)
          ],
          rw (some_left, within) (write_checked-invalid m frames d src v),
        )
      ]

-- `writePageFrames` ends on every input, and is all or nothing. It accepts no bytes at all, and a
-- source that is not null for a range that lies in the frames, each byte of which has a frame that is
-- not 0 and lies in main storage; then storage has changed by exactly the source bytes, each at the
-- address that the frame of its own 2 KB page gives it, and nothing else has changed. Everything else
-- is refused, negative numbers too, and then nothing has changed. The condition is that a source that
-- is not null holds as many bytes as are to be written.
pub write_page_frames-IsOutcome :
    (m : Machine) (frames : List ℤ) (d len : ℤ) (source : Option (List ℕ))
    → IsReadable source len
    → IsOutcome m frames d source len
unfolding write_page_frames
write_page_frames-IsOutcome m frames (negsuc d) len source enough = inr ((λ no. no), refl)
write_page_frames-IsOutcome m frames (pos d) (negsuc n) source enough = inr ((λ no. no), refl)
write_page_frames-IsOutcome m frames (pos d) (pos n) none enough = elim (Bool-cases (n == 0)) [
  | inl none_left ↦
      inl
        (ground arith, rw (none_left, take-zero n [] none_left) (sym (scatter-nothing m frames d)))
  | inr some_left ↦ inr ((λ e. ground arith), rw some_left refl)
]
write_page_frames-IsOutcome m frames (pos d) (pos n) (some source) enough =
    elim (Bool-cases (n == 0)) [
      | inl none_left ↦ inl (
        inl (ground arith),
        rw (none_left, take-zero n source none_left) (sym (scatter-nothing m frames d)),
      )
      | inr some_left ↦ elim (Bool-cases (ltb (length frames * 2048) (d + n))) [
        | inl beyond ↦ inr ((λ ok. ground (arith, ok)), rw (some_left, beyond) refl)
        | inr within ↦ checked-IsOutcome m frames d n source enough some_left within
      ]
    ]
