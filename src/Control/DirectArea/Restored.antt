-- ===== src/Control/DirectArea/Restored.antt =====
-- A checkpoint of the direct areas of src/Processors/ControlStorage/DirectArea.cpp, and a write.
use sim.Base.{
  ℕ, zero, suc, ◌+◌, ◌%◌, ◌^◌, ◌≤◌, ◌<◌, Bool, true, false, ◌&&◌, List, ◌∷◌, ltb, leb,
  if◌then◌else◌, length, ◌≡◌, ◌≢◌, ◌⊎◌, inl, inr, refl, sym, ap, subst, ◌∙◌, arith, if_off,
  Bool-cases,
}
use sim.Base.Int.{ℤ, pos}
use sim.Control.DirectArea.{
  DirectWord, DirectArea, words, blank_word, blank_area, set_word, capture_words,
  capture_checkpoint, restore_words, restore_checkpoint,
}

-- The word as it is written again.
abbrev rewritten : DirectWord → DirectWord
rewritten d = record { low = d.low % 2 ^ 16; high = d.high % 2 ^ 8; written = true }

length-capture_words : (left i : ℕ) (a : DirectArea) → length (capture_words left i a) % 3 ≡ 0
unfolding capture_words
length-capture_words zero i a = refl
length-capture_words (suc n) i a = ground (arith, length-capture_words n (i + 1) a)

-- The words of a checkpoint are written over an area.
Restores : (a b : DirectArea) (i left w : ℕ) → Bool × DirectArea → Type 0
Restores a b i left w (accepted, area) =
    (accepted ≡ true)
    × (area w ≡ (if leb i w && (ltb w (i + left) && (a w).written) then rewritten (a w) else b w))

restore_words-none :
    (a b : DirectArea) (i w : ℕ) → Restores a b i 0 w (restore_words (capture_words 0 i a) b)
unfolding restore_words capture_words Restores
restore_words-none a b i w = (refl, ground arith)

same_or_not : (i w : ℕ) → (i ≡ w) ⊎ (i ≢ w)
same_or_not i w = ground arith

-- What an area holds at `w` after the words from `i` on.
abbrev word_after : (a b : DirectArea) (i left w : ℕ) → DirectWord
word_after a b i left w =
    if leb i w && (ltb w (i + left) && (a w).written) then rewritten (a w) else b w

word_after-written :
    (a b : DirectArea) (i n w : ℕ)
    → (a i).written ≡ true
    → word_after a (set_word b i (a i).low (a i).high) (i + 1) n w ≡ word_after a b i (suc n) w
unfolding set_word
word_after-written a b i n w wrote = elim (same_or_not i w) [
  | inl same ↦
      subst
        (λ v.
          word_after a (set_word b i (a i).low (a i).high) (i + 1) n v ≡ word_after a b i (suc n) v)
        same (ground arith)
  | inr other ↦ ground arith
]

word_after-blank :
    (a b : DirectArea) (i n w : ℕ)
    → (a i).written ≡ false
    → word_after a b (i + 1) n w ≡ word_after a b i (suc n) w
word_after-blank a b i n w blank = elim (same_or_not i w) [
  | inl same ↦
      subst (λ v. word_after a b (i + 1) n v ≡ word_after a b i (suc n) v) same (ground arith)
  | inr other ↦ ground arith
]

restore_words-next :
    (i l h : ℕ) (rest : List ℤ) (b : DirectArea)
    → i < words
    → restore_words (pos i ∷ pos l ∷ pos h ∷ rest) b ≡ restore_words rest (set_word b i l h)
unfolding restore_words
restore_words-next i l h rest b inside = if_off (leb words i) _ _ (ground arith)

capture_words-next :
    (n i : ℕ) (a : DirectArea) (b : Bool)
    → (a i).written ≡ b
    → capture_words (suc n) i a ≡ (
        if b
        then pos i ∷ pos (a i).low ∷ pos (a i).high ∷ capture_words n (i + 1) a
        else capture_words n (i + 1) a)
unfolding capture_words
capture_words-next n i a b e = rw e refl

restore_words-Restores :
    (left i w : ℕ) (a b : DirectArea)
    → i + left ≤ words
    → Restores a b i left w (restore_words (capture_words left i a) b)
unfolding Restores
restore_words-Restores zero i w a b h = restore_words-none a b i w
restore_words-Restores (suc n) i w a b h = elim (Bool-cases (a i).written) [
  | inl wrote ↦
      let b' = set_word b i (a i).low (a i).high in
      let step =
        ap (λ values. restore_words values b) (capture_words-next n i a true wrote)
        ∙ restore_words-next i (a i).low (a i).high (capture_words n (i + 1) a) b (omega arith) in
      let (accepted, same) = restore_words-Restores n (i + 1) w a b' (omega arith) in
      (
        ap (λ r. r.0) step ∙ accepted,
        ap (λ r. r.1 w) step ∙ same ∙ word_after-written a b i n w wrote,
      )
  | inr blank ↦
      let step = ap (λ values. restore_words values b) (capture_words-next n i a false blank) in
      let (accepted, same) = restore_words-Restores n (i + 1) w a b (omega arith) in
      (
        ap (λ r. r.0) step ∙ accepted,
        ap (λ r. r.1 w) step ∙ same ∙ word_after-blank a b i n w blank,
      )
]

-- A word as the area can hold it: two bytes and one, and zeros until it is written.
abbrev pub IsStored : DirectWord → Type 0
IsStored d = (d ≡ blank_word) ⊎ ((d.low < 2 ^ 16) × (d.high < 2 ^ 8) × (d.written ≡ true))

abbrev word_of : (low high : ℕ) → Bool → DirectWord
word_of l h b = record { low = l; high = h; written = b }

rewritten-stored :
    (d : DirectWord) → d.low < 2 ^ 16 → d.high < 2 ^ 8 → d.written ≡ true → rewritten d ≡ d
rewritten-stored d low high wrote =
    let in_half : d.low % 2 ^ 16 ≡ d.low = omega arith in
    let in_byte : d.high % 2 ^ 8 ≡ d.high = omega arith in
    ap (λ l. word_of l (d.high % 2 ^ 8) true) in_half
    ∙ ap (λ h. word_of d.low h true) in_byte
    ∙ ap (word_of d.low d.high) (sym wrote)

kept_word :
    (b : Bool) (d : DirectWord) → b ≡ true → (if b then rewritten d else blank_word) ≡ rewritten d
kept_word true d h = refl
kept_word false d h = cc

stored_word :
    (a : DirectArea) (w : ℕ) → w < words → IsStored (a w) → word_after a blank_area 0 words w ≡ a w
stored_word a w inside (inl blank) =
    if_off (leb 0 w && (ltb w words && (a w).written)) _ _
      (ground (arith, ap (λ d. d.written) blank))
    ∙ sym blank
stored_word a w inside (inr (low, high, wrote)) =
    kept_word (leb 0 w && (ltb w words && (a w).written)) (a w) (ground arith)
    ∙ rewritten-stored (a w) low high wrote

-- The checkpoint of an area is accepted, and gives back every word that is within its bytes and is
-- zero until it is written.
pub restore_checkpoint-capture_checkpoint_word :
    (a : DirectArea) (w : ℕ)
    → w < words
    → IsStored (a w)
    → ((restore_checkpoint (capture_checkpoint a)).0 ≡ true)
      × ((restore_checkpoint (capture_checkpoint a)).1 w ≡ a w)
unfolding restore_checkpoint capture_checkpoint Restores
restore_checkpoint-capture_checkpoint_word a w inside stored =
    let (accepted, same) = restore_words-Restores words 0 w a blank_area (omega arith) in
    rw (length-capture_words words 0 a) (accepted, same ∙ stored_word a w inside stored)
