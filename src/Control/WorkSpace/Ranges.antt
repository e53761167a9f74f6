-- ===== src/Control/WorkSpace/Ranges.antt =====
-- The free ranges of a work space: in order, apart, inside of it, and none lost.
use sim.Base.{
  ℕ, ◌+◌, ◌-◌, ◌*◌, ◌/◌, ◌≤◌, ◌≡◌, refl, ap, subst, Bool, true, false, not, ◌&&◌, Option, none,
  some, List, [], ◌∷◌, ltb, leb, ◌==◌, if◌then◌else◌, arith,
}
use sim.Control.WorkSpace.{
  Range, WorkSpaceHeap, Found, pages_spanned, candidate, put_before, first_fit, beats, or_else,
  fewest_pages, keep, join, carve, total_length,
}

-- From `low` on the ranges lie in order, do not overlap and end inside the work space.
abbrev pub Ordered : ℕ → ℕ → List Range → Type 0
Ordered capacity low [] = Unit {0}
Ordered capacity low (r ∷ rs) =
    (low ≤ r.at) × (r.at + r.length ≤ capacity) × Ordered capacity (r.at + r.length) rs

abbrev pub IsOrdered : WorkSpaceHeap → Type 0
IsOrdered h = Ordered h.capacity 0 h.free_ranges

-- A place of `size` bytes inside one of the ranges.
pub record IsPlace (size : ℕ) (rs : List Range) (f : Found) : Type 0 where
  pub parts : rs ≡ join f.before (f.range ∷ f.after)
  pub from : f.range.at ≤ f.at
  pub to : f.at + size ≤ f.range.at + f.range.length

unfoldable pub IsResult : ℕ → List Range → Option Found → Type 0
IsResult size rs none = Unit {0}
IsResult size rs (some f) = IsPlace size rs f

put_before-IsResult :
    (size : ℕ) (r : Range) (rs : List Range) (o : Option Found)
    → IsResult size rs o
    → IsResult size (r ∷ rs) (put_before r o)
unfolding put_before IsResult join
put_before-IsResult size r rs none h = h
put_before-IsResult size r rs (some f) h = record {
  parts = ap (λ t. r ∷ t) h.parts;
  from = h.from;
  to = h.to;
}

or_else-IsResult :
    (size : ℕ) (rs : List Range) (o p : Option Found)
    → IsResult size rs o
    → IsResult size rs p
    → IsResult size rs (or_else o p)
unfolding or_else
or_else-IsResult size rs none p h k = k
or_else-IsResult size rs (some f) p h k = h

pub if-IsResult :
    (size : ℕ) (rs : List Range) (b : Bool) (o p : Option Found)
    → (b ≡ true → IsResult size rs o)
    → (b ≡ false → IsResult size rs p)
    → IsResult size rs (if b then o else p)
if-IsResult size rs true o p h k = h refl
if-IsResult size rs false o p h k = k refl

pub first_fit-IsResult : (size : ℕ) (rs : List Range) → IsResult size rs (first_fit size rs)
unfolding first_fit
first_fit-IsResult size [] = unfold IsResult in tt
first_fit-IsResult size (r ∷ rs) =
    if-IsResult size (r ∷ rs) (ltb r.length size) _ _
      (λ short. put_before-IsResult size r rs (first_fit size rs) (first_fit-IsResult size rs))
      (λ fits.
        unfold IsResult join in record { parts = refl; from = omega arith; to = ground arith })

and-left : (a b : Bool) → (a && b) ≡ true → a ≡ true
and-left a b h = ground arith

if-property :
    (P : ℕ → Type 0) (b : Bool) (x y : ℕ) → (b ≡ true → P x) → P y → P (if b then x else y)
if-property P true x y h k = h refl
if-property P false x y h k = k

candidate-fits :
    (size : ℕ) (r : Range)
    → size ≤ r.length
    → (r.at ≤ candidate size r) × (candidate size r + size ≤ r.at + r.length)
unfolding candidate
candidate-fits size r h =
    let aligned = (r.at + 2047) / 2048 * 2048 in
    let fits = leb (aligned + size) (r.at + r.length) in
    let saves = ltb (pages_spanned size aligned) (pages_spanned size r.at) in
    if-property (λ a. (r.at ≤ a) × (a + size ≤ r.at + r.length)) (fits && saves) aligned r.at
      (λ both. let inside = and-left fits saves both in (omega arith, ground (arith, inside)))
      (omega arith, omega arith)

here-IsResult :
    (size : ℕ) (r : Range) (rs : List Range)
    → ltb r.length size ≡ false
    → IsResult size
        (r ∷ rs)
        (some (record { before = []; range = r; at = candidate size r; after = rs }))
unfolding IsResult join
here-IsResult size r rs long =
    let (from, to) = candidate-fits size r (ground arith) in
    record { parts = refl; from = from; to = to }

pub fewest_pages-IsResult :
    (size : ℕ) (best : Option ℕ) (rs : List Range) → IsResult size rs (fewest_pages size best rs)
unfolding fewest_pages
fewest_pages-IsResult size best [] = unfold IsResult in tt
fewest_pages-IsResult size best (r ∷ rs) =
    let rest = λ (b : Option ℕ).
      put_before-IsResult size r rs (fewest_pages size b rs) (fewest_pages-IsResult size b rs) in
    let pages = pages_spanned size (candidate size r) in
    let here = here-IsResult size r rs in
    if-IsResult size (r ∷ rs) (ltb r.length size) _ _ (λ short. rest best)
      (λ long.
        if-IsResult size (r ∷ rs) (not (beats pages best)) _ _ (λ no. rest best)
          (λ yes.
            if-IsResult size (r ∷ rs) (pages == (size + 2047) / 2048) _ _ (λ e. here long)
              (λ e. or_else-IsResult size (r ∷ rs) _ _ (rest (some pages)) (here long))))

total-join : (xs ys : List Range) → total_length (join xs ys) ≡ total_length xs + total_length ys
unfolding total_length join
total-join [] ys = omega arith
total-join (x ∷ xs) ys = omega (arith, total-join xs ys)

total-keep : (r : Range) (rs : List Range) → total_length (keep r rs) ≡ r.length + total_length rs
unfolding keep total_length
total-keep r rs = ground arith

pub total-cons : (r : Range) (rs : List Range) → total_length (r ∷ rs) ≡ r.length + total_length rs
unfolding total_length
total-cons r rs = refl

pub carve-total :
    (size : ℕ) (rs : List Range) (f : Found)
    → IsPlace size rs f
    → total_length (carve size f) + size ≡ total_length rs
unfolding carve
carve-total size rs f p =
    let left : Range = record { at = f.range.at; length = f.at - f.range.at } in
    let right : Range = record {
      at = f.at + size;
      length = f.range.at + f.range.length - (f.at + size);
    } in
    omega (
      arith,
      p.from,
      p.to,
      ap total_length p.parts,
      total-join f.before (f.range ∷ f.after),
      total-cons f.range f.after,
      total-join f.before (keep left (keep right f.after)),
      total-keep left (keep right f.after),
      total-keep right f.after,
    )

Ordered-weaken :
    (capacity low high : ℕ) (rs : List Range)
    → low ≤ high
    → Ordered capacity high rs
    → Ordered capacity low rs
Ordered-weaken capacity low high [] h o = o
Ordered-weaken capacity low high (r ∷ rs) h (l, u, o) = (omega arith, u, o)

kept-Ordered :
    (capacity low : ℕ) (b : Bool) (r : Range) (rs : List Range)
    → low ≤ r.at
    → r.at + r.length ≤ capacity
    → Ordered capacity (r.at + r.length) rs
    → Ordered capacity low (if b then r ∷ rs else rs)
kept-Ordered capacity low true r rs h k o = (h, k, o)
kept-Ordered capacity low false r rs h k o =
    Ordered-weaken capacity low (r.at + r.length) rs (omega arith) o

Ordered-keep :
    (capacity low : ℕ) (r : Range) (rs : List Range)
    → low ≤ r.at
    → r.at + r.length ≤ capacity
    → Ordered capacity (r.at + r.length) rs
    → Ordered capacity low (keep r rs)
unfolding keep
Ordered-keep capacity low r rs h k o = kept-Ordered capacity low (ltb 0 r.length) r rs h k o

Ordered-join :
    (capacity low : ℕ) (xs : List Range) (r : Range) (rs ys : List Range)
    → Ordered capacity low (join xs (r ∷ rs))
    → ((l : ℕ)
        → l ≤ r.at
        → r.at + r.length ≤ capacity
        → Ordered capacity (r.at + r.length) rs
        → Ordered capacity l ys)
    → Ordered capacity low (join xs ys)
unfolding join
Ordered-join capacity low [] r rs ys (l, u, o) k = k low l u o
Ordered-join capacity low (x ∷ xs) r rs ys (l, u, o) k =
    (l, u, Ordered-join capacity (x.at + x.length) xs r rs ys o k)

pub carve-Ordered :
    (capacity size : ℕ) (rs : List Range) (f : Found)
    → IsPlace size rs f
    → Ordered capacity 0 rs
    → Ordered capacity 0 (carve size f)
unfolding carve
carve-Ordered capacity size rs f p o =
    let left : Range = record { at = f.range.at; length = f.at - f.range.at } in
    let right : Range = record {
      at = f.at + size;
      length = f.range.at + f.range.length - (f.at + size);
    } in
    let from = p.from in
    let to = p.to in
    Ordered-join capacity 0 f.before f.range f.after (keep left (keep right f.after))
      (subst (Ordered capacity 0) p.parts o)
      (λ l low high rest. Ordered-keep capacity l left (keep right f.after) low (omega arith) (
        Ordered-keep capacity (left.at + left.length) right f.after (omega arith) (omega arith) (
          Ordered-weaken capacity (right.at + right.length) (f.range.at + f.range.length) f.after
            (omega arith) rest)))
