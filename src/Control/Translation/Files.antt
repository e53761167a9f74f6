-- ===== src/Control/Translation/Files.antt =====
-- The files of src/Processors/ControlStorage/NuPtt.cpp, found by their handles.
use sim.Base.{
  if-property, ℕ, suc, ◌*◌, ◌<◌, ◌≡◌, ◌≢◌, refl, ap, ◌∙◌, Bool, true, false, Option, none, some,
  List, [], ◌∷◌, ◌++◌, ◌==◌, if◌then◌else◌, length, replicate, arith, All,
}
use sim.Control.Translation.{
  TranslationFile, TranslationPool, atr_count, file_bytes, by_handle, edit_file, renew, if_owner,
  owned,
}

-- The owner that a search finds.
abbrev pub owner_found : Option TranslationFile → Option ℕ
owner_found none = none
owner_found (some p) = some p.owner

abbrev pub Distinct : List ℕ → Type 0
Distinct [] = Unit {0}
Distinct (h ∷ hs) = All (λ (j : ℕ). j ≢ h) hs × Distinct hs

-- Files lie below the next handle, and the free list names files without an owner, each once.
pub record IsPool (files : List TranslationFile) (free_list : List ℕ) : Type 0 where
  pub below : All (λ (p : TranslationFile). p.handle < length files * file_bytes) files
  pub unowned : All (λ (h : ℕ). owner_found (by_handle h files) ≡ some 0) free_list
  pub distinct : Distinct free_list

abbrev pub apply :
    (TranslationFile → TranslationFile) → Option TranslationFile → Option TranslationFile
apply edit none = none
apply edit (some p) = some (edit p)

apply-if :
    (edit : TranslationFile → TranslationFile) (b : Bool) (p : TranslationFile)
    (o : Option TranslationFile)
    → apply edit (if b then some p else o) ≡ (if b then some (edit p) else apply edit o)
apply-if edit true p o = refl
apply-if edit false p o = refl

pub by_handle-edit :
    (edit : TranslationFile → TranslationFile) (k j : ℕ) (ps : List TranslationFile)
    → ((p : TranslationFile) → (edit p).handle ≡ p.handle)
    → by_handle j (edit_file edit k ps)
      ≡ (if k == j then apply edit (by_handle j ps) else by_handle j ps)
unfolding by_handle edit_file
by_handle-edit edit k j [] same = ground arith
by_handle-edit edit k j (p ∷ ps) same =
    let rest = by_handle-edit edit k j ps same in
    let parts = apply-if edit (p.handle == j) p (by_handle j ps) in
    let goal = λ (r : List TranslationFile).
      by_handle j r
      ≡ (if k == j then apply edit (by_handle j (p ∷ ps)) else by_handle j (p ∷ ps)) in
    if-property goal (p.handle == k) _ _ (λ c. ground (arith, c, parts, same p))
      (λ c. ground (arith, c, parts, rest))

pub by_handle-append :
    (j : ℕ) (p : TranslationFile) (ps : List TranslationFile)
    → by_handle p.handle ps ≡ none
    → by_handle j (ps ++ p ∷ []) ≡ (if p.handle == j then some p else by_handle j ps)
unfolding by_handle
by_handle-append j p [] fresh = refl
by_handle-append j p (q ∷ qs) fresh =
    let rest = by_handle-append j p qs in ground (arith, fresh, rest)

pub by_handle-fresh :
    (j : ℕ) (ps : List TranslationFile)
    → All (λ (p : TranslationFile). p.handle < j) ps
    → by_handle j ps ≡ none
unfolding by_handle
by_handle-fresh j [] below = refl
by_handle-fresh j (p ∷ ps) (b, bs) = let rest = by_handle-fresh j ps bs in ground (arith, rest, b)

-- What an allocation promises: the block has a cleared file of its own, and every block keeps the
-- file that it had.
pub record IsGiven (rb handle : ℕ) (before after : TranslationPool) : Type 0 where
  pub pool : IsPool after.files after.free_list
  pub mine :
      owned handle rb after
      ≡ some (record { handle = handle; owner = rb; atr = replicate atr_count 0 })
  pub others :
      (h owner : ℕ) (p : TranslationFile)
      → 0 < owner
      → owned h owner before ≡ some p
      → (h ≢ handle) × (owned h owner after ≡ some p)

pub own-renew : (rb : ℕ) (p : TranslationFile) → (renew rb p).handle ≡ p.handle
unfolding renew
own-renew rb p = refl

pub length-edit :
    (edit : TranslationFile → TranslationFile) (k : ℕ) (ps : List TranslationFile)
    → length (edit_file edit k ps) ≡ length ps
unfolding edit_file
length-edit edit k [] = refl
length-edit edit k (p ∷ ps) =
    if-property (λ (r : List TranslationFile). length r ≡ suc (length ps)) (p.handle == k) _ _
      (λ c. refl) (λ c. ap suc (length-edit edit k ps))

pub below-edit :
    (edit : TranslationFile → TranslationFile) (k bound : ℕ) (ps : List TranslationFile)
    → ((p : TranslationFile) → (edit p).handle ≡ p.handle)
    → All (λ (p : TranslationFile). p.handle < bound) ps
    → All (λ (p : TranslationFile). p.handle < bound) (edit_file edit k ps)
unfolding edit_file
below-edit edit k bound [] same b = tt
below-edit edit k bound (p ∷ ps) same (b, bs) =
    if-property (All (λ (q : TranslationFile). q.handle < bound)) (p.handle == k) _ _
      (λ c. (omega (arith, same p), bs)) (λ c. (b, below-edit edit k bound ps same bs))

-- Handles other than the edited one keep their owner.
pub unowned-edit :
    (edit : TranslationFile → TranslationFile) (k : ℕ) (ps : List TranslationFile) (hs : List ℕ)
    → ((p : TranslationFile) → (edit p).handle ≡ p.handle)
    → All (λ (j : ℕ). j ≢ k) hs
    → All (λ (h : ℕ). owner_found (by_handle h ps) ≡ some 0) hs
    → All (λ (h : ℕ). owner_found (by_handle h (edit_file edit k ps)) ≡ some 0) hs
unowned-edit edit k ps [] same n u = tt
unowned-edit edit k ps (h ∷ hs) same (n, ns) (u, us) =
    let kept : by_handle h (edit_file edit k ps) ≡ by_handle h ps =
      ground (arith, by_handle-edit edit k h ps same, n) in
    (ap owner_found kept ∙ u, unowned-edit edit k ps hs same ns us)

abbrev handle_found : Option TranslationFile → ℕ
handle_found none = 0
handle_found (some p) = p.handle

abbrev owner_number : Option TranslationFile → ℕ
owner_number none = 0
owner_number (some p) = p.owner

pub found-handle :
    (h : ℕ) (p : TranslationFile) (ps : List TranslationFile)
    → by_handle h ps ≡ some p
    → p.handle ≡ h
unfolding by_handle
found-handle h p [] there = absurd (ground arith)
found-handle h p (q ∷ qs) there =
    if-property (λ (o : Option TranslationFile). o ≡ some p → p.handle ≡ h) (q.handle == h) (some q)
      (by_handle h qs)
      (λ c e. (let same : q.handle ≡ p.handle = ap handle_found e in ground (arith, same, c)))
      (λ c e. found-handle h p qs e) there

abbrev pub found_number : Option ℕ → ℕ
found_number none = 0
found_number (some n) = n

if_owner-some :
    (owner : ℕ) (o : Option TranslationFile) (p : TranslationFile)
    → if_owner owner o ≡ some p
    → (o ≡ some p) × (p.owner ≡ owner)
if_owner-some owner none p there = absurd (ground arith)
if_owner-some owner (some q) p there =
    if-property (λ (o : Option TranslationFile). o ≡ some p → (some q ≡ some p) × (p.owner ≡ owner))
      (q.owner == owner) (some q) none
      (λ c e. (e, (let same : q.owner ≡ p.owner = ap owner_number e in ground (arith, same, c))))
      (λ c e. absurd (ground arith)) there

pub owned-found :
    (h owner : ℕ) (p : TranslationFile) (pool : TranslationPool)
    → owned h owner pool ≡ some p
    → (by_handle h pool.files ≡ some p) × (p.owner ≡ owner)
unfolding owned
owned-found h owner p pool there = if_owner-some owner (by_handle h pool.files) p there

pub found-owned :
    (h owner : ℕ) (p : TranslationFile) (pool : TranslationPool)
    → by_handle h pool.files ≡ some p
    → p.owner ≡ owner
    → owned h owner pool ≡ some p
unfolding owned
found-owned h owner p pool there same = ap (if_owner owner) there ∙ ground (arith, same)
