-- ===== src/Storage/Tape/Space.antt =====
-- Spacing over records of src/Storage/SimhTapeBackend.cpp: forward and back again.
use sim.Base.{
  inl, inr, ℕ, zero, suc, ◌+◌, ◌-◌, true, false, List, leb, length, ◌≡◌, sym, ap, subst, ◌∙◌, arith,
  if-property, if_on,
}
use sim.Base.Int.{pos, negsuc, neg}
use sim.Storage.Tape.{
  TapeResult, ok, Item, Tape, mark_at, forward_records, backward_records, stored, space_records,
}
use sim.Storage.Tape.Position.{Unmarked, eq_or_lt}

-- So many records were spaced over, all of which bear no mark.
abbrev Spaced : List Item → (spaced from : ℕ) → TapeResult × ℕ × ℕ → Type 0
Spaced items spaced from (result, total, c) =
    (k : ℕ) × (total ≡ spaced + k) × (c ≡ from + k) × Unmarked items from k

no_records : (items : List Item) (from : ℕ) → Unmarked items from 0
no_records items from i h l = absurd (omega arith)

one_more :
    (items : List Item) (from k : ℕ)
    → mark_at items from ≡ false
    → Unmarked items (from + 1) k
    → Unmarked items from (suc k)
one_more items from k here u i h l = elim (eq_or_lt from i h) [
  | inl same ↦ ap (mark_at items) (sym same) ∙ here
  | inr above ↦ u i (omega arith) (omega arith)
]

forward_records-Spaced :
    (left : ℕ) (items : List Item) (spaced from : ℕ)
    → Spaced items spaced from (forward_records left items spaced from)
unfolding forward_records
forward_records-Spaced zero items spaced from = (0, omega arith, omega arith, no_records items from)
forward_records-Spaced (suc left) items spaced from =
    let (k, total, at, u) = forward_records-Spaced left items (spaced + 1) (from + 1) in
    if-property (Spaced items spaced from) (leb (length items) from) _ _
      (λ end. (0, omega arith, omega arith, no_records items from))
      (λ inside.
        if-property (Spaced items spaced from) (mark_at items from) _ _
          (λ mark. (0, omega arith, omega arith, no_records items from))
          (λ here. (suc k, omega arith, omega arith, one_more items from k here u)))

backward_records-Unmarked :
    (k : ℕ) (items : List Item) (spaced from : ℕ)
    → Unmarked items from k
    → backward_records k items spaced (from + k) ≡ (ok, spaced + k, from)
unfolding backward_records
backward_records-Unmarked zero items spaced from u = ground arith
backward_records-Unmarked (suc k) items spaced from u =
    let before : from + suc k - 1 ≡ from + k = omega arith in
    let here : mark_at items (from + suc k - 1) ≡ false =
      ap (mark_at items) before ∙ u (from + k) (omega arith) (omega arith) in
    let rest = backward_records-Unmarked k items (spaced + 1) from (λ i h l. u i h (omega arith)) in
    ground (arith, ap (backward_records k items (spaced + 1)) before)

neg-suc : (k : ℕ) → neg (pos (suc k)) ≡ negsuc k
neg-suc k = ground arith

space_on :
    (t : Tape) (count : ℕ)
    → t.loaded ≡ true
    → space_records (pos count) t ≡ stored t (forward_records count t.items 0 t.cursor)
unfolding space_records
space_on t count on = if_on t.loaded _ _ on

-- A space back over so many records.
space_back :
    (t : Tape) (k c : ℕ)
    → t.loaded ≡ true
    → c ≡ t.cursor + k
    → Unmarked t.items t.cursor k
    → space_records (neg (pos k)) (record t { cursor = c }) ≡ (ok, k, t)
unfolding space_records stored forward_records
space_back t zero c on e u =
    if_on t.loaded _ _ on ∙ ap (λ at. (ok, 0, record t { cursor = at })) (omega arith)
space_back t (suc k) c on e u =
    ap (λ z. space_records z (record t { cursor = c })) (neg-suc k)
    ∙ if_on t.loaded _ _ on
    ∙ ap (λ at. stored (record t { cursor = c }) (backward_records (suc k) t.items 0 at)) e
    ∙ ap (stored (record t { cursor = c })) (backward_records-Unmarked (suc k) t.items 0 t.cursor u)
    ∙ ap (λ n. (ok, n, t)) (omega arith)

-- However far a forward space goes and whatever ends it, a space back over the records that it
-- counted leaves the tape as it was.
space_records-back :
    (t : Tape) (count : ℕ)
    → t.loaded ≡ true
    → space_records (neg (pos (space_records (pos count) t).1)) (space_records (pos count) t).2
      ≡ (ok, (space_records (pos count) t).1, t)
unfolding stored
space_records-back t count on =
    let (k, total, at, u) = forward_records-Spaced count t.items 0 t.cursor in
    let (result, spaced, c) = forward_records count t.items 0 t.cursor in
    subst (λ r. space_records (neg (pos r.1)) r.2 ≡ (ok, r.1, t)) (sym (space_on t count on))
      (subst (λ n. space_records (neg (pos n)) (record t { cursor = c }) ≡ (ok, n, t))
        (sym (total ∙ omega arith)) (space_back t k c on at u))
