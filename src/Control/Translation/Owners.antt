-- ===== src/Control/Translation/Owners.antt =====
-- Who owns a file of src/Processors/ControlStorage/NuPtt.cpp.
use sim.Base.{
  if-property, ℕ, ◌*◌, ◌≤◌, ◌<◌, ◌≡◌, ◌≢◌, refl, sym, ap, subst, ◌∙◌, Option, none, some, List, [],
  ◌∷◌, ◌++◌, ◌==◌, length, replicate, arith, All, length-append,
}
use sim.Control.Translation.{
  TranslationFile, TranslationPool, atr_count, file_bytes, by_handle, edit_file, renew,
  allocate_from, allocate,
}
use sim.Control.Translation.Files.{
  owner_found, IsPool, apply, by_handle-edit, by_handle-append, by_handle-fresh, IsGiven, own-renew,
  length-edit, below-edit, unowned-edit, found-handle, found_number, owned-found, found-owned,
}

renewed :
    (rb h : ℕ) (o : Option TranslationFile)
    → owner_found o ≡ some 0
    → ((p : TranslationFile) → o ≡ some p → p.handle ≡ h)
    → apply (renew rb) o ≡ some (record { handle = h; owner = rb; atr = replicate atr_count 0 })
unfolding renew
renewed rb h none u k = absurd (ground arith)
renewed rb h (some q) u k =
    ap (λ (n : ℕ). some (record { handle = n; owner = rb; atr = replicate atr_count 0 })) (k q refl)

All-append {κ} :
    (P : TranslationFile → Type κ) (ps : List TranslationFile) (p : TranslationFile)
    → All P ps
    → P p
    → All P (ps ++ p ∷ [])
All-append P [] p a b = (b, tt)
All-append P (q ∷ qs) p (a, as') b = (a, All-append P qs p as' b)

All-below :
    (low high : ℕ) (ps : List TranslationFile)
    → low ≤ high
    → All (λ (p : TranslationFile). p.handle < low) ps
    → All (λ (p : TranslationFile). p.handle < high) ps
All-below low high [] h a = tt
All-below low high (p ∷ ps) h (a, as') = (omega arith, All-below low high ps h as')

reused-IsGiven :
    (rb head : ℕ) (files : List TranslationFile) (rest : List ℕ)
    → IsPool files (head ∷ rest)
    → let before : TranslationPool = record { files = files; free_list = head ∷ rest } in
      let after : TranslationPool = record {
        files = edit_file (renew rb) head files;
        free_list = rest;
      } in
      IsGiven rb head before after
reused-IsGiven rb head files rest p =
    let after : TranslationPool = record {
      files = edit_file (renew rb) head files;
      free_list = rest;
    } in
    let (u, us) = p.unowned in
    let (n, ns) = p.distinct in
    let edited = λ (h : ℕ). by_handle-edit (renew rb) head h files (own-renew rb) in
    let cleared : TranslationFile = record {
      handle = head;
      owner = rb;
      atr = replicate atr_count 0;
    } in
    let mine : by_handle head after.files ≡ some cleared =
      edited head
      ∙ if-property (λ o. o ≡ some cleared) (head == head) _ _
          (λ c. renewed rb head (by_handle head files) u (λ q e. found-handle head q files e))
          (λ c. absurd (ground arith)) in
    record {
      pool = record {
        below =
            subst (λ (k : ℕ). All (λ (q : TranslationFile). q.handle < k * file_bytes) after.files)
              (sym (length-edit (renew rb) head files))
              (below-edit (renew rb) head (length files * file_bytes) files (own-renew rb) p.below);
        unowned = unowned-edit (renew rb) head files rest (own-renew rb) n us;
        distinct = ns;
      };
      mine = found-owned head rb _ after mine refl;
      others = λ h owner q positive e.
          let (found, same) = owned-found h owner q _ e in
          let apart : h ≢ head = λ equal.
            let zero_owner : some q.owner ≡ some 0 =
              sym (ap owner_found found) ∙ ap (λ k. owner_found (by_handle k files)) equal ∙ u in
            omega (arith, positive, same, ap found_number zero_owner) in
          let kept : by_handle h after.files ≡ some q = ground (arith, edited h, apart, found) in
          (apart, found-owned h owner q after kept same);
    }

made-IsGiven :
    (rb : ℕ) (files : List TranslationFile)
    → IsPool files []
    → let before : TranslationPool = record { files = files; free_list = [] } in
      let (handle, after) = allocate_from rb files [] in IsGiven rb handle before after
unfolding allocate_from
made-IsGiven rb files p =
    let handle = length files * file_bytes in
    let made : TranslationFile = record {
      handle = handle;
      owner = rb;
      atr = replicate atr_count 0;
    } in
    let after : TranslationPool = record { files = files ++ made ∷ []; free_list = [] } in
    let fresh = by_handle-fresh handle files p.below in
    let appended = λ (h : ℕ). by_handle-append h made files fresh in
    let count = length-append files (made ∷ []) in
    record {
      pool = record {
        below =
            All-append (λ (q : TranslationFile). q.handle < length after.files * file_bytes) files
              made
              (All-below handle (length after.files * file_bytes) files (omega (arith, count))
                p.below)
              (omega (arith, count));
        unowned = tt;
        distinct = tt;
      };
      mine = found-owned handle rb made after (ground (arith, appended handle)) refl;
      others = λ h owner q positive e.
          let (found, same) = owned-found h owner q _ e in
          let apart : h ≢ handle =
            λ equal. absurd (ground (arith, found, fresh, ap (λ k. by_handle k files) equal)) in
          (apart, found-owned h owner q after (ground (arith, appended h, apart, found)) same);
    }

given :
    (rb : ℕ) (files : List TranslationFile) (free_list : List ℕ)
    → IsPool files free_list
    → let before : TranslationPool = record { files = files; free_list = free_list } in
      let (handle, after) = allocate_from rb files free_list in IsGiven rb handle before after
given rb files [] p = made-IsGiven rb files p
given rb files (head ∷ rest) p = unfold allocate_from in reused-IsGiven rb head files rest p

-- Allocating in a pool that is in order gives the request block a file of its own, with its 32
-- registers cleared; every other request block keeps the file that it had, under another handle;
-- and the pool stays in order.
pub allocate-IsGiven :
    (rb : ℕ) (pool : TranslationPool)
    → IsPool pool.files pool.free_list
    → let (handle, after) = allocate rb pool in IsGiven rb handle pool after
unfolding allocate
allocate-IsGiven rb pool p = given rb pool.files pool.free_list p
