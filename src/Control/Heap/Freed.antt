-- ===== src/Control/Heap/Freed.antt =====
-- `free` of src/Processors/ControlStorage/GuestHeap.cpp gives an allocated area back.
use sim.Base.{
  if-property, ℕ, suc, ◌+◌, ◌-◌, ◌%◌, ◌≤◌, ◌<◌, ◌≡◌, refl, sym, ap, subst, ◌∙◌, true, not, ◌&&◌,
  Option, none, some, List, [], ◌∷◌, ◌++◌, ltb, leb, ◌==◌, if◌then◌else◌, arith,
}
use sim.Base.Int.{pos, ◌-ℤ◌, sub_pos}
use sim.Control.Heap.Sets.{weigh}
use sim.Control.Heap.FreeLists.{Block, enqueue}
use sim.Control.Heap.Ledger.{Additive}
use sim.Control.Heap.Enqueue.{enqueue-IsEnqueued}
use sim.Control.Heap.Pool.{Live, GuestHeap, contains, live_extents, sort_allocated}
use sim.Control.Heap.Requests.{
  free_action, pass_over, take_containing, parts_left, disown, give_back, is_freeable, free,
}
use sim.Control.Heap.Sound.{
  IsPlaced, IsSound, Filled, Ordered-Filled, Filled-append, weigh-sort_allocated, weigh-append,
  sort_allocated-Ordered, balance-IsApart,
}
use sim.Control.Heap.Moves.{Additive-zero}
use sim.Control.Heap.Assigned.{trace-IsSound}

-- An allocation that contains the area, and the journal without it.
record IsTaken (off end : ℕ) (es : List Live) (e : Live) (rest : List Live) : Type 0 where
  pub from : e.off ≤ off
  pub to : end ≤ e.off + e.length
  pub filled : Filled rest
  pub weight :
      (w : ℕ → ℕ → ℕ) → weigh w (live_extents es) ≡ w e.off e.length + weigh w (live_extents rest)

abbrev IsTakenOption : (off end : ℕ) → List Live → Option (Live × List Live) → Type 0
IsTakenOption off end es none = Unit {0}
IsTakenOption off end es (some (e, rest)) = IsTaken off end es e rest

pass_over-IsTaken :
    (off end : ℕ) (d : Live) (es : List Live) (o : Option (Live × List Live))
    → 0 < d.length
    → IsTakenOption off end es o
    → IsTakenOption off end (d ∷ es) (pass_over d o)
unfolding pass_over
pass_over-IsTaken off end d es none n t = tt
pass_over-IsTaken off end d es (some (e, rest)) n t = record {
  from = t.from;
  to = t.to;
  filled = (n, t.filled);
  weight = λ w. omega (arith, t.weight w);
}

take_containing-IsTaken :
    (off end : ℕ) (es : List Live)
    → Filled es
    → IsTakenOption off end es (take_containing off end es)
unfolding take_containing
take_containing-IsTaken off end [] f = tt
take_containing-IsTaken off end (d ∷ es) (n, f) =
    if-property (IsTakenOption off end (d ∷ es)) (leb d.off off && leb end (d.off + d.length)) _ _
      (λ c. record {
        from = ground (arith, c);
        to = ground (arith, c);
        filled = f;
        weight = λ w. refl;
      })
      (λ c. pass_over-IsTaken off end d es _ n (take_containing-IsTaken off end es f))

-- What is left of an allocation weighs what it did, less the area.
parts_left-weight :
    (w : ℕ → ℕ → ℕ) (off size : ℕ) (e : Live)
    → Additive w
    → e.off ≤ off
    → off + size ≤ e.off + e.length
    → weigh w (live_extents (parts_left off (off + size) e)) + w off size ≡ w e.off e.length
unfolding parts_left
parts_left-weight w off size e additive from to =
    let below = off - e.off in
    let last = e.off + e.length - (off + size) in
    let W = λ (es : List Live). weigh w (live_extents es) in
    let parts : below + (size + last) ≡ e.length = omega arith in
    let start : e.off + below ≡ off = omega arith in
    let split : w e.off e.length ≡ w e.off below + (w off size + w (off + size) last) = omega (
      arith,
      ap (w e.off) parts,
      additive e.off below (size + last),
      ap (λ o. w o (size + last)) start,
      additive off size last,
    ) in
    let above =
      if ltb (off + size) (e.off + e.length)
      then record e { off = off + size; length = last } ∷ []
      else [] in
    let above_weight : W above ≡ w (off + size) last =
      if-property (λ es. W es ≡ w (off + size) last) (ltb (off + size) (e.off + e.length)) _ _
        (λ c. omega arith)
        (λ c.
          (let none_left : last ≡ 0 = ground (arith, c) in
            omega (arith, ap (w (off + size)) none_left, Additive-zero w (off + size) additive))) in
    if-property (λ es. W es + w off size ≡ w e.off e.length) (ltb e.off off) _ _
      (λ c. omega (arith, split, above_weight))
      (λ c.
        (let none_left : below ≡ 0 = ground (arith, c) in
          omega
            (arith, split, above_weight, ap (w e.off) none_left, Additive-zero w e.off additive)))

parts_left-Filled : (off end : ℕ) (e : Live) → Filled (parts_left off end e)
unfolding parts_left
parts_left-Filled off end e =
    let above : Filled (
        if ltb end (e.off + e.length)
        then record e { off = end; length = e.off + e.length - end } ∷ []
        else []) =
      if-property Filled (ltb end (e.off + e.length)) _ _ (λ c. (ground (arith, c), tt))
        (λ c. tt) in
    if-property Filled (ltb e.off off) _ _ (λ c. (ground (arith, c), above)) (λ c. above)

freeable-facts :
    (at size : ℕ) (h : GuestHeap)
    → IsPlaced h
    → is_freeable at size h ≡ true
    → (0 < size) × ((at - h.low) % 16 ≡ 0)
unfolding is_freeable contains
freeable-facts at size h p accepted =
    let parts : (not (size == 0) && (at % 16 == 0 && leb h.low at)) ≡ true =
      ground (arith, accepted) in
    (ground (arith, parts), ground (arith, parts, p.boundary, p.aligned))

-- The pool after an area has been given back.
pub record IsFreed (h g : GuestHeap) (off size : ℕ) : Type 0 where
  pub sound : IsSound g
  pub weight :
      (w : ℕ → ℕ → ℕ)
      → Additive w
      → weigh w g.lists.elements ≡ w off size + weigh w h.lists.elements
  pub journal :
      (w : ℕ → ℕ → ℕ)
      → Additive w
      → weigh w (live_extents g.allocated) + w off size ≡ weigh w (live_extents h.allocated)

released-IsFreed :
    (at size : ℕ) (h : GuestHeap) (e : Live) (rest : List Live)
    → IsSound h
    → 0 < size
    → size % 16 ≡ 0
    → (off : ℕ) → off % 16 ≡ 0
    → IsTaken off (off + size) h.allocated e rest
    → IsFreed h
        (give_back off size (
          disown at off size
            (some (e, rest))
            (record h { operation_sequence = suc h.operation_sequence })))
        off
        size
unfolding give_back disown
released-IsFreed at size h e rest s positive whole off aligned t =
    let p = s.placed in
    let left = parts_left off (off + size) e in
    let journal = rest ++ left in
    let journal_weight : (w : ℕ → ℕ → ℕ)
        → Additive w
        → weigh w (live_extents (sort_allocated journal)) + w off size
          ≡ weigh w (live_extents h.allocated) =
      λ w additive. omega (
        arith,
        t.weight w,
        weigh-sort_allocated w journal,
        weigh-append w rest left,
        parts_left-weight w off size e additive t.from t.to,
      ) in
    let b : Block = record { off = off; size = size; lists = h.lists } in
    let apart =
      balance-IsApart h b (λ w. weigh w (live_extents (sort_allocated journal))) p
        (λ w additive. omega (arith, s.balance w additive, journal_weight w additive)) in
    let q =
      enqueue-IsEnqueued (h.initial_bytes % 65536) h.bytes off size h.lists (omega arith) s.filed
        apart positive whole aligned in
    let total = journal_weight (λ o n. n) (λ o n k. refl) in
    let g : GuestHeap = record h {
      operation_sequence = suc h.operation_sequence;
      allocated = sort_allocated journal;
      used = h.used -ℤ pos size;
      lists = enqueue h.bytes off size h.lists;
    } in
    let sound : IsSound g = record {
      placed = record {
        valid = p.valid;
        low = p.low;
        header = p.header;
        initial = p.initial;
        boundary = p.boundary;
        aligned = p.aligned;
        span = p.span;
        high = p.high;
      };
      filed = q.filed;
      ordered =
          sort_allocated-Ordered journal
            (Filled-append rest left t.filled (parts_left-Filled off (off + size) e));
      balance = λ w additive.
          omega (arith, s.balance w additive, q.weight w additive, journal_weight w additive);
      account =
          ap (λ u. u -ℤ pos size) s.account
          ∙ sub_pos _ size (omega (arith, total))
          ∙ ap pos (omega (arith, total));
    } in
    let same = sym (trace-IsSound (suc h.operation_sequence) free_action g sound) in
    record {
      sound = subst IsSound same sound;
      weight = λ w additive.
          ap (λ (x : GuestHeap). weigh w x.lists.elements) (sym same) ∙ q.weight w additive;
      journal = λ w additive.
          ap (λ (x : GuestHeap). weigh w (live_extents x.allocated) + w off size) (sym same)
          ∙ journal_weight w additive;
    }

-- `free` of an area that passes its checks, is in multiples of 16 bytes and lies in one allocation:
-- the pool stays sound, and the area's bytes, no others, leave the journal and join the free lists.
pub free-IsFreed :
    (at size : ℕ) (h : GuestHeap) (e : Live) (rest : List Live)
    → IsSound h
    → is_freeable at size h ≡ true
    → size % 16 ≡ 0
    → take_containing (at - h.low) (at - h.low + size) h.allocated ≡ some (e, rest)
    → IsFreed h (free at size h) (at - h.low) size
unfolding free
free-IsFreed at size h e rest s accepted whole there =
    let off = at - h.low in
    let p = s.placed in
    let taken : IsTaken off (off + size) h.allocated e rest =
      subst (IsTakenOption off (off + size) h.allocated) there (
        take_containing-IsTaken off (off + size) h.allocated
          (Ordered-Filled 0 h.allocated s.ordered)) in
    let (positive, aligned) = freeable-facts at size h p accepted in
    let started = record h { operation_sequence = suc h.operation_sequence } in
    if-property (λ g. IsFreed h g off size) (is_freeable at size h) _ _
      (λ c.
        subst (λ o. IsFreed h (give_back off size (disown at off size o started)) off size)
          (sym there) (released-IsFreed at size h e rest s positive whole off aligned taken))
      (λ c. absurd (ground (arith, c, accepted)))
