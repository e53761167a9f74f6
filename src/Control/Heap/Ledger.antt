-- ===== src/Control/Heap/Ledger.antt =====
-- What the loops of `enqueue` add to the free lists, and that the lists stay filed.
use native.Mathlib.Nat.{pow-le-pow_right, pow-suc, one-le-pow}
use sim.Base.{
  if-property, ℕ, suc, ◌+◌, ◌%◌, ◌≤◌, ◌<◌, ◌≡◌, refl, ap, ap₂, subst, inl, inr, Bool, true, false,
  ◌&&◌, Option, none, some, List, [], ◌∷◌, ltb, leb, ◌==◌, if◌then◌else◌, arith, Bool-cases,
}
use sim.Control.Heap.Sets.{
  Extent, member, insert_key, erase_key, find, put, erase, Ascending, weigh, member-insert_key,
  member-erase_key, find-put, find-erase,
}
use sim.Control.Heap.FreeLists.{
  FreeLists, class_index, class_bytes, edit_class, dequeue, insert, has_size,
}

-- A weight that a block's parts share.
abbrev pub Additive : (ℕ → ℕ → ℕ) → Type 0
Additive w = (o s t : ℕ) → w o (s + t) ≡ w o s + w (o + s) t

-- 1 for a byte of the extent, 0 for another.
abbrev pub in_extent : ℕ → ℕ → ℕ → ℕ
in_extent b off size = if leb off b && ltb b (off + size) then 1 else 0

pub in_extent-Additive : (b : ℕ) → Additive (in_extent b)
in_extent-Additive b o s t = ground arith

-- A length that a class is for.
pub record IsClassSize (size : ℕ) : Type 0 where
  pub index : class_index size < 12
  pub exact : class_bytes (class_index size) ≡ size

pub record IsFiled (f : FreeLists) : Type 0 where
  pub ascending : Ascending 0 f.elements
  pub sizes : (off size : ℕ) → find off f.elements ≡ some size → IsClassSize size
  pub aligned : (off size : ℕ) → find off f.elements ≡ some size → off % 16 ≡ 0
  pub agree :
      (k off : ℕ) → member off (f.classes k) ≡ has_size (class_bytes k) (find off f.elements)

Ascending-weaken :
    (low high : ℕ) (es : List Extent) → low ≤ high → Ascending high es → Ascending low es
Ascending-weaken low high [] h a = a
Ascending-weaken low high (e ∷ es) h (l, a) = (omega arith, a)

find-above : (k low : ℕ) (es : List Extent) → k < low → Ascending low es → find k es ≡ none
unfolding find
find-above k low [] h a = refl
find-above k low (e ∷ es) h (l, a) =
    let rest = find-above k (suc e.off) es (omega arith) a in ground (arith, rest)

erase-above : (k low : ℕ) (es : List Extent) → k < low → Ascending low es → erase k es ≡ es
unfolding erase
erase-above k low [] h a = refl
erase-above k low (e ∷ es) h (l, a) =
    let rest = erase-above k (suc e.off) es (omega arith) a in ground (arith, rest)

Ascending-erase : (k low : ℕ) (es : List Extent) → Ascending low es → Ascending low (erase k es)
unfolding erase
Ascending-erase k low [] a = a
Ascending-erase k low (e ∷ es) (l, a) =
    let rest = Ascending-erase k (suc e.off) es a in
    if-property (Ascending low) (e.off == k) _ _
      (λ h. Ascending-weaken low (suc e.off) _ (omega arith) rest) (λ h. (l, rest))

Ascending-put :
    (k n low : ℕ) (es : List Extent) → low ≤ k → Ascending low es → Ascending low (put k n es)
unfolding put
Ascending-put k n low [] h a = (h, tt)
Ascending-put k n low (e ∷ es) h (l, a) =
    if-property (Ascending low) (ltb e.off k) _ _
      (λ c. (l, Ascending-put k n (suc e.off) es (ground arith) a))
      (λ c.
        if-property (Ascending low) (e.off == k) _ _
          (λ d. (h, subst (λ x. Ascending (suc x) es) (ground arith) a))
          (λ d. (h, (ground arith, a))))

weigh-if :
    (w : ℕ → ℕ → ℕ) (b : Bool) (es : List Extent) (e : Extent) (ds : List Extent)
    → weigh w (if b then es else e ∷ ds) ≡ (if b then weigh w es else w e.off e.size + weigh w ds)
weigh-if w true es e ds = refl
weigh-if w false es e ds = refl

same_extent : (w : ℕ → ℕ → ℕ) (a b m n : ℕ) → a ≡ b → some m ≡ some n → w a m ≡ w b n
same_extent w a b m n h k = ap₂ w h (ground arith)

module _ (w : ℕ → ℕ → ℕ) where
  pub weigh-erase :
      (k n low : ℕ) (es : List Extent)
      → Ascending low es
      → find k es ≡ some n
      → weigh w (erase k es) + w k n ≡ weigh w es
  unfolding find erase
  weigh-erase k n low [] a h = absurd (ground arith)
  weigh-erase k n low (e ∷ es) (l, a) h =
      let rest = weigh-erase k n (suc e.off) es a in
      let gone = λ (c : k < suc e.off). ap (weigh w) (erase-above k (suc e.off) es c a) in
      let same = same_extent w e.off k e.size n in
      let split = weigh-if w (e.off == k) (erase k es) e (erase k es) in
      ground (arith, split, rest, gone, same)

  pub weigh-put :
      (k n : ℕ) (es : List Extent) → find k es ≡ none → weigh w (put k n es) ≡ w k n + weigh w es
  unfolding find put
  weigh-put k n [] h = refl
  weigh-put k n (e ∷ es) h =
      let rest = weigh-put k n es in
      let entry : Extent = record { off = k; size = n } in
      if-property (λ r. weigh w r ≡ w k n + weigh w (e ∷ es)) (ltb e.off k) _ _
        (λ c. omega (arith, rest (ground arith)))
        (λ c.
          if-property (λ r. weigh w r ≡ w k n + weigh w (e ∷ es)) (e.off == k) _ _
            (λ d. absurd (ground arith)) (λ d. refl))

pub class_bytes-lt : (j k : ℕ) → j < k → class_bytes j < class_bytes k
class_bytes-lt j k h = omega (
  arith,
  pow-le-pow_right {n = 2} (omega arith) {i = suc j} {j = k} h,
  pow-suc 2 j,
  one-le-pow j 2,
)

pub class_bytes-eq : (j k : ℕ) → (class_bytes j == class_bytes k) ≡ (j == k)
class_bytes-eq j k = ground (arith, class_bytes-lt j k, class_bytes-lt k j)

member-edit :
    (edit : List ℕ → List ℕ) (k j off : ℕ) (classes : ℕ → List ℕ)
    → member off (edit_class edit k classes j)
      ≡ (if j == k then member off (edit (classes j)) else member off (classes j))
unfolding edit_class
member-edit edit k j off classes =
    if-property
      (λ r.
        member off r ≡ (if j == k then member off (edit (classes j)) else member off (classes j)))
      (j == k) _ _ (λ c. ground arith) (λ c. ground arith)

has_size-if :
    (size : ℕ) (b : Bool) (o p : Option ℕ)
    → has_size size (if b then o else p) ≡ (if b then has_size size o else has_size size p)
has_size-if size true o p = refl
has_size-if size false o p = refl

-- An element that is there leaves its class and the map.
pub dequeue-IsFiled :
    (off n : ℕ) (f : FreeLists)
    → IsFiled f
    → find off f.elements ≡ some n
    → IsFiled (dequeue (class_index n) off f)
unfolding dequeue
dequeue-IsFiled off n f filed here =
    let size = filed.sizes off n here in
    record {
      ascending = Ascending-erase off 0 f.elements filed.ascending;
      sizes = λ o m h. filed.sizes o m (ground (arith, find-erase off o f.elements));
      aligned = λ o m h. filed.aligned o m (ground (arith, find-erase off o f.elements));
      agree = λ k o. ground (
        arith,
        member-edit (erase_key off) (class_index n) k o f.classes,
        member-erase_key off o (f.classes k),
        ap (has_size (class_bytes k)) (find-erase off o f.elements),
        has_size-if (class_bytes k) (off == o) none (find o f.elements),
        filed.agree k o,
        filed.agree k off,
        ap (has_size (class_bytes k)) here,
        class_bytes-eq (class_index n) k,
        size.exact,
      );
    }

pub insert-IsFiled :
    (off n : ℕ) (f : FreeLists)
    → IsFiled f
    → find off f.elements ≡ none
    → IsClassSize n
    → off % 16 ≡ 0
    → IsFiled (insert off n f)
unfolding insert
insert-IsFiled off n f filed absent size here = record {
  ascending = Ascending-put off n 0 f.elements (omega arith) filed.ascending;
  sizes = λ o m h. elim (Bool-cases (off == o)) [
    | inl c ↦ subst IsClassSize (ground (arith, find-put off o n f.elements)) size
    | inr c ↦ filed.sizes o m (ground (arith, find-put off o n f.elements))
  ];
  aligned = λ o m h. elim (Bool-cases (off == o)) [
    | inl c ↦ ground (arith, here)
    | inr c ↦ filed.aligned o m (ground (arith, find-put off o n f.elements))
  ];
  agree = λ k o. ground (
    arith,
    member-edit (insert_key off) (class_index n) k o f.classes,
    member-insert_key off o (f.classes k),
    ap (has_size (class_bytes k)) (find-put off o n f.elements),
    has_size-if (class_bytes k) (off == o) (some n) (find o f.elements),
    filed.agree k o,
    filed.agree k off,
    ap (has_size (class_bytes k)) absent,
    class_bytes-eq (class_index n) k,
    size.exact,
  );
}
