-- ===== src/Control/Elements/Fifo.antt =====
-- A queue of action control elements is first in, first out: `enqueue` and `elements` of
-- src/Processors/ControlStorage/ActionControlElementQueue.cpp.
use sim.Base.{
  if◌then◌else◌, false, refl, if-property, ℕ, ◌+◌, ◌^◌, ◌≤◌, ◌<◌, ◌≡◌, sym, ap, subst, ◌∙◌, true,
  List, [], ◌∷◌, ◌++◌, ◌==◌, All, arith, length, length-append,
}
use sim.Machine.State.{read_addr24, Machine, write_addr24}
use sim.Control.Elements.{header_address, tail, chain, enqueue, elements}
use sim.Control.Elements.Links.{
  link, Apart, IsChain, Spread, link_machine, replace, replace_machine, replace_same, replace_apart,
  IsChain-replace, last, apart_last, apart_sym, chain-list, tail-last, IsChain-extend,
}

-- `elements` from what is read of the header.
unfoldable chain_read : (guard : ℕ) → ℕ × Machine → List ℕ
chain_read guard (head, m) = (chain guard head m).0

elements-read :
    (m : Machine) (number : ℕ)
    → (elements m number).0 ≡ chain_read 4096 (read_addr24 m (header_address number))
unfolding elements chain_read
elements-read m number = refl

chain_read-list :
    (guard at : ℕ) (m : Machine) (xs : List ℕ)
    → IsChain m.storage m.size at xs
    → length xs ≤ guard
    → chain_read guard (at, m) ≡ xs
unfolding chain_read
chain_read-list guard at m xs c enough = chain-list guard at m xs c enough

elements-list :
    (m : Machine) (number : ℕ) (xs : List ℕ)
    → header_address number + 3 ≤ m.size
    → IsChain m.storage m.size (link m.storage (header_address number)) xs
    → length xs ≤ 4096
    → (elements m number).0 ≡ xs
elements-list m number xs fits c enough =
    elements-read m number
    ∙ ap (chain_read 4096) (link_machine m (header_address number) fits)
    ∙ chain_read-list 4096 (link m.storage (header_address number)) m xs c enough

-- The element's own link is cleared first.
unfoldable unlinked : Machine → ℕ → Machine
unlinked m ace = record m { storage = replace m.storage (ace + 2) 0 }

-- `enqueue` after the element's own link has been cleared.
unfoldable after_unlink : (header ace head : ℕ) → Machine → Machine
after_unlink header ace head m =
    let (end, m') = tail 4096 head m in
    if head == 0 then write_addr24 m header ace else write_addr24 m' (end + 2) ace

unfoldable after_head : (header ace : ℕ) → ℕ × Machine → Machine
after_head header ace (head, m) = after_unlink header ace head (write_addr24 m (ace + 2) 0)

enqueue-steps :
    (m : Machine) (number ace : ℕ)
    → enqueue m number ace
      ≡ after_head (header_address number) ace (read_addr24 m (header_address number))
unfolding enqueue after_head after_unlink
enqueue-steps m number ace = refl

enqueue-unlinked :
    (m : Machine) (number ace : ℕ)
    → header_address number + 3 ≤ m.size
    → ace + 5 ≤ m.size
    → enqueue m number ace
      ≡ after_unlink
          (header_address number)
          ace
          (link m.storage (header_address number))
          (unlinked m ace)
unfolding after_head unlinked
enqueue-unlinked m number ace fits room =
    let h = header_address number in
    enqueue-steps m number ace
    ∙ ap (after_head h ace) (link_machine m h fits)
    ∙ ap (after_unlink h ace (link m.storage h)) (replace_machine m (ace + 2) 0 (omega arith))

not_zero : (n : ℕ) → 0 < n → (n == 0) ≡ true → ⊥
not_zero n h c = ground arith

is_zero : (n : ℕ) → n ≡ 0 → (n == 0) ≡ false → ⊥
is_zero n h c = ground arith

after_unlink-empty :
    (header ace head : ℕ) (m : Machine)
    → header + 3 ≤ m.size
    → head ≡ 0
    → after_unlink header ace head m ≡ record m { storage = replace m.storage header ace }
unfolding after_unlink
after_unlink-empty header ace head m fits none_queued =
    if-property (λ x. x ≡ record m { storage = replace m.storage header ace }) (head == 0) _ _
      (λ c. replace_machine m header ace fits) (λ c. absurd (is_zero head none_queued c))

after_unlink-behind :
    (header ace head l : ℕ) (m : Machine)
    → 0 < head
    → l + 5 ≤ m.size
    → tail 4096 head m ≡ (l, m)
    → after_unlink header ace head m ≡ record m { storage = replace m.storage (l + 2) ace }
unfolding after_unlink
after_unlink-behind header ace head l m queued inside walked =
    if-property (λ x. x ≡ record m { storage = replace m.storage (l + 2) ace }) (head == 0) _ _
      (λ c. absurd (not_zero head queued c))
      (λ c.
        ap (λ (p : ℕ × Machine). write_addr24 p.1 (p.0 + 2) ace) walked
        ∙ replace_machine m (l + 2) ace (omega arith))

last_inside :
    (f : ℕ → ℕ) (size at x : ℕ) (xs : List ℕ) → IsChain f size at (x ∷ xs) → last x xs + 5 ≤ size
last_inside f size at x [] (same, positive, fits, c) = fits
last_inside f size at x (y ∷ ys) (same, positive, fits, c) =
    last_inside f size (link f (x + 2)) y ys c

-- A queue header, its elements, and an element that can join them: all lie in storage, and no two
-- of the links share a byte.
pub record IsJoinable (m : Machine) (number ace : ℕ) (xs : List ℕ) : Type 0 where
  pub header : header_address number + 3 ≤ m.size
  pub chained : IsChain m.storage m.size (link m.storage (header_address number)) xs
  pub spread : Spread xs
  pub apart : All (λ (x : ℕ). Apart (ace + 2) (x + 2)) xs
  pub clear : All (λ (x : ℕ). Apart (header_address number) (x + 2)) xs
  pub off_header : Apart (header_address number) (ace + 2)
  pub positive : 0 < ace
  pub address : ace < 2 ^ 24
  pub room : ace + 5 ≤ m.size
  pub count : length xs < 4096

joined :
    (m : Machine) (number ace : ℕ) (xs : List ℕ)
    → IsJoinable m number ace xs
    → link m.storage (ace + 2) ≡ 0
    → (elements
        (after_unlink (header_address number) ace (link m.storage (header_address number)) m)
        number).0
      ≡ xs ++ ace ∷ []
joined m number ace [] j own =
    let h = header_address number in
    let g = replace m.storage h ace in
    let head : link g h ≡ ace = replace_same m h ace j.header j.address in
    let end : link g (ace + 2) ≡ 0 = replace_apart m.storage h ace (ace + 2) j.off_header ∙ own in
    ap (λ x. (elements x number).0)
      (after_unlink-empty h ace (link m.storage h) m j.header j.chained)
    ∙ elements-list (record m { storage = g }) number (ace ∷ []) j.header
        (head, j.positive, j.room, end) (omega arith)
joined m number ace (x ∷ xs) j own =
    let h = header_address number in
    let l = last x xs in
    let g = replace m.storage (l + 2) ace in
    let (k, ks) = j.clear in
    let head : link g h ≡ link m.storage h =
      replace_apart m.storage (l + 2) ace h (apart_sym h (l + 2) (apart_last h x xs k ks)) in
    let queued : 0 < link m.storage h = omega (arith, j.chained.0, j.chained.1) in
    let extended =
      IsChain-extend m ace (link m.storage h) x xs j.chained j.spread j.apart own j.positive
        j.address j.room in
    ap (λ y. (elements y number).0)
      (after_unlink-behind h ace (link m.storage h) l m queued
        (last_inside m.storage m.size (link m.storage h) x xs j.chained)
        (tail-last 4096 (link m.storage h) m x xs j.chained (omega (arith, j.count))))
    ∙ elements-list (record m { storage = g }) number (x ∷ xs ++ ace ∷ []) j.header
        (subst (λ n. IsChain g m.size n (x ∷ xs ++ ace ∷ [])) (sym head) extended)
        (omega (arith, j.count, length-append xs (ace ∷ [])))

unlinked-header :
    (m : Machine) (number ace : ℕ) (xs : List ℕ)
    → IsJoinable m number ace xs
    → link (unlinked m ace).storage (header_address number) ≡ link m.storage (header_address number)
unfolding unlinked
unlinked-header m number ace xs j =
    replace_apart m.storage (ace + 2) 0 (header_address number)
      (apart_sym (header_address number) (ace + 2) j.off_header)

unlinked-own :
    (m : Machine) (ace : ℕ) → ace + 5 ≤ m.size → link (unlinked m ace).storage (ace + 2) ≡ 0
unfolding unlinked
unlinked-own m ace room = replace_same m (ace + 2) 0 (omega arith) (omega arith)

unlinked-IsChain :
    (m : Machine) (number ace : ℕ) (xs : List ℕ)
    → IsJoinable m number ace xs
    → IsChain
        (unlinked m ace).storage
        (unlinked m ace).size
        (link m.storage (header_address number))
        xs
unfolding unlinked
unlinked-IsChain m number ace xs j =
    IsChain-replace m.storage m.size (ace + 2) 0 (link m.storage (header_address number)) xs j.apart
      j.chained

unlinked-size : (m : Machine) (ace : ℕ) → (unlinked m ace).size ≡ m.size
unfolding unlinked
unlinked-size m ace = refl

unlinked-IsJoinable :
    (m : Machine) (number ace : ℕ) (xs : List ℕ)
    → IsJoinable m number ace xs
    → IsJoinable (unlinked m ace) number ace xs
unlinked-IsJoinable m number ace xs j = record {
  header = omega (arith, j.header, unlinked-size m ace);
  chained =
      subst (λ n. IsChain (unlinked m ace).storage (unlinked m ace).size n xs)
        (sym (unlinked-header m number ace xs j)) (unlinked-IsChain m number ace xs j);
  spread = j.spread;
  apart = j.apart;
  clear = j.clear;
  off_header = j.off_header;
  positive = j.positive;
  address = j.address;
  room = omega (arith, j.room, unlinked-size m ace);
  count = j.count;
}

enqueued :
    (m : Machine) (number ace : ℕ) (xs : List ℕ)
    → IsJoinable m number ace xs
    → (elements (enqueue m number ace) number).0 ≡ xs ++ ace ∷ []
enqueued m number ace xs j =
    let h = header_address number in
    ap (λ x. (elements x number).0)
      (enqueue-unlinked m number ace j.header j.room
        ∙ ap (λ n. after_unlink h ace n (unlinked m ace)) (sym (unlinked-header m number ace xs j)))
    ∙ joined (unlinked m ace) number ace xs (unlinked-IsJoinable m number ace xs j)
        (unlinked-own m ace j.room)

-- Queueing an element puts it behind all that the queue has, in their order, where fewer than 4096
-- are queued, the header and the elements lie in storage, and no two links share a byte.
pub elements-enqueue :
    (m : Machine) (number ace : ℕ) (xs : List ℕ)
    → IsJoinable m number ace xs
    → ((elements m number).0 ≡ xs) × ((elements (enqueue m number ace) number).0 ≡ xs ++ ace ∷ [])
elements-enqueue m number ace xs j = (
  elements-list m number xs j.header j.chained (omega (arith, j.count)),
  enqueued m number ace xs j,
)
