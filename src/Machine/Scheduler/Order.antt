-- ===== src/Machine/Scheduler/Order.antt =====
-- The queue of src/Machine/Scheduler.cpp is in order, whatever is scheduled.
use sim.Base.{
  if-property, ℕ, suc, ◌≤◌, ◌<◌, ◌≡◌, ◌≢◌, ◌⊎◌, sym, List, [], ◌∷◌, ◌++◌, ltb, refl, ap, subst,
  if◌then◌else◌, arith, All,
}
use sim.Machine.Scheduler.{Event, Scheduler, is_before, insert_event, sort_events, at}

module _ {ℓ} {A : Type ℓ} where
  -- Earlier, or at the same time and scheduled first.
  abbrev pub Before : Event A → Event A → Type 0
  Before a b = (a.at < b.at) ⊎ ((a.at ≡ b.at) × (a.seq < b.seq))

  abbrev pub IsSorted : List (Event A) → Type 0
  IsSorted [] = Unit {0}
  IsSorted (e ∷ es) = All (Before e) es × IsSorted es

  abbrev pub Distinct : List (Event A) → Type 0
  Distinct [] = Unit {0}
  Distinct (e ∷ es) = All (λ (d : Event A). d.seq ≢ e.seq) es × Distinct es

  -- In order, none of it in the past, and numbered as they were scheduled.
  pub record IsQueue (s : Scheduler A) : Type 0 where
    pub sorted : IsSorted s.heap
    pub distinct : Distinct s.heap
    pub future : All (λ (e : Event A). s.now ≤ e.at) s.heap
    pub numbered : All (λ (e : Event A). e.seq < s.seq) s.heap

  -- The event of a call: not in the past, with the call's number.
  abbrev pub new_event : (when : ℕ) (label : List ℕ) → A → Scheduler A → Event A
  new_event when label action s = record {
    at = if ltb when s.now then s.now else when;
    seq = s.seq;
    label = label;
    action = action;
  }

  All-insert {κ} :
      (P : Event A → Type κ) (e : Event A) (es : List (Event A))
      → P e
      → All P es
      → All P (insert_event e es)
  unfolding insert_event
  All-insert P e [] p ps = (p, tt)
  All-insert P e (x ∷ xs) p (q, qs) =
      if-property (All P) (is_before x e) _ _ (λ c. (q, All-insert P e xs p qs)) (λ c. (p, (q, qs)))

  All-map {κ μ} :
      (P : Event A → Type κ) (Q : Event A → Type μ) (es : List (Event A))
      → ((e : Event A) → P e → Q e)
      → All P es
      → All Q es
  All-map P Q [] f ps = tt
  All-map P Q (e ∷ es) f (p, ps) = (f e p, All-map P Q es f ps)

  insert-Distinct :
      (e : Event A) (es : List (Event A))
      → All (λ (d : Event A). d.seq ≢ e.seq) es
      → Distinct es
      → Distinct (insert_event e es)
  unfolding insert_event
  insert-Distinct e [] n d = (tt, tt)
  insert-Distinct e (x ∷ xs) (n, ns) (d, ds) =
      if-property Distinct (is_before x e) _ _
        (λ c. (
          All-insert (λ (y : Event A). y.seq ≢ x.seq) e xs (λ same. n (sym same)) d,
          insert-Distinct e xs ns ds,
        ))
        (λ c. ((n, ns), (d, ds)))

  insert-IsSorted :
      (e : Event A) (es : List (Event A))
      → All (λ (d : Event A). d.seq ≢ e.seq) es
      → IsSorted es
      → IsSorted (insert_event e es)
  unfolding insert_event is_before
  insert-IsSorted e [] n s = (tt, tt)
  insert-IsSorted e (x ∷ xs) (n, ns) (b, bs) =
      if-property IsSorted (is_before x e) _ _
        (λ c. (All-insert (Before x) e xs (ground (arith, c)) b, insert-IsSorted e xs ns bs))
        (λ c.
          let first : Before e x = ground (arith, c, n) in
          (
            (first, All-map (Before x) (Before e) xs (λ y before. ground (arith, first, before)) b),
            (b, bs),
          ))

  All-sort {κ} : (P : Event A → Type κ) (es : List (Event A)) → All P es → All P (sort_events es)
  unfolding sort_events
  All-sort P [] ps = tt
  All-sort P (e ∷ es) (p, ps) = All-insert P e (sort_events es) p (All-sort P es ps)

  All-append {κ} :
      (P : Event A → Type κ) (es : List (Event A)) (e : Event A)
      → All P es
      → P e
      → All P (es ++ e ∷ [])
  All-append P [] e ps p = (p, tt)
  All-append P (x ∷ xs) e (q, qs) p = (q, All-append P xs e qs p)

  Distinct-append :
      (es : List (Event A)) (e : Event A)
      → All (λ (d : Event A). d.seq < e.seq) es
      → Distinct es
      → Distinct (es ++ e ∷ [])
  Distinct-append [] e n d = (tt, tt)
  Distinct-append (x ∷ xs) e (n, ns) (d, ds) = (
    All-append (λ (y : Event A). y.seq ≢ x.seq) xs e d (λ same. omega (arith, n, same)),
    Distinct-append xs e ns ds,
  )

  sort_events_facts :
      (es : List (Event A)) → Distinct es → IsSorted (sort_events es) × Distinct (sort_events es)
  unfolding sort_events
  sort_events_facts [] d = (tt, tt)
  sort_events_facts (e ∷ es) (n, d) =
      let (s, d') = sort_events_facts es d in
      let n' = All-sort (λ (x : Event A). x.seq ≢ e.seq) es n in
      (insert-IsSorted e (sort_events es) n' s, insert-Distinct e (sort_events es) n' d')

  -- What `at` has to leave: the event stands between the events before and after it.
  pub record IsScheduled (when : ℕ) (label : List ℕ) (action : A) (s after : Scheduler A)
      : Type ℓ where
    pub queue : IsQueue after
    pub earlier : List (Event A)
    pub later : List (Event A)
    pub kept : s.heap ≡ earlier ++ later
    pub added : after.heap ≡ earlier ++ new_event when label action s ∷ later
    pub clock : after.now ≡ s.now
    pub counted : after.seq ≡ suc s.seq

  -- The event is put into a list in order somewhere.
  abbrev IsPut : Event A → (es after : List (Event A)) → Type ℓ
  IsPut e es after =
      (earlier : List (Event A)) × (later : List (Event A)) × (es ≡ earlier ++ later)
      × (after ≡ earlier ++ e ∷ later)

  insert_first :
      (x y : Event A) (ys : List (Event A)) → Before x y → insert_event x (y ∷ ys) ≡ x ∷ y ∷ ys
  unfolding insert_event is_before
  insert_first x y ys b =
      if-property (λ l. l ≡ x ∷ y ∷ ys) (is_before y x) _ _ (λ c. absurd (ground (arith, b, c)))
        (λ c. refl)

  insert_sorted :
      (x : Event A) (es : List (Event A)) → All (Before x) es → insert_event x es ≡ x ∷ es
  unfolding insert_event
  insert_sorted x [] b = refl
  insert_sorted x (y ∷ ys) (b, bs) = insert_first x y ys b

  insert-IsPut :
      (x e : Event A) (es after : List (Event A))
      → All (Before x) es
      → IsPut e es after
      → IsPut e (x ∷ es) (insert_event x after)
  unfolding insert_event
  insert-IsPut x e es after b ([], later, same, put) =
      let all = subst (All (Before x)) same b in
      let P = λ (l : List (Event A)). IsPut e (x ∷ es) l in
      subst (λ l. IsPut e (x ∷ es) (insert_event x l)) (sym put)
        (if-property P (is_before e x) _ _
          (λ c. ([], x ∷ later, ap (λ l. x ∷ l) same, ap (λ l. e ∷ l) (insert_sorted x later all)))
          (λ c. (x ∷ [], later, ap (λ l. x ∷ l) same, refl)))
  insert-IsPut x e es after b (y ∷ ys, later, same, put) =
      let (first, rest) = subst (All (Before x)) same b in
      subst (λ l. IsPut e (x ∷ es) (insert_event x l)) (sym put)
        (x ∷ y ∷ ys, later, ap (λ l. x ∷ l) same, insert_first x y (ys ++ e ∷ later) first)

  sort_events-IsPut :
      (e : Event A) (es : List (Event A)) → IsSorted es → IsPut e es (sort_events (es ++ e ∷ []))
  unfolding sort_events insert_event
  sort_events-IsPut e [] s = ([], [], refl, refl)
  sort_events-IsPut e (x ∷ xs) (b, s) =
      insert-IsPut x e xs (sort_events (xs ++ e ∷ [])) b (sort_events-IsPut e xs s)

  -- Scheduling on a queue in order adds one event and keeps the others in their order: the new one
  -- has the time that is asked for, or the present if that is later, and the number of the call. The
  -- queue stays in order, by time and then by the order of the calls, with nothing in the past; the
  -- clock stays and the number of the next call is one higher.
  pub at-IsScheduled :
      (when : ℕ) (label : List ℕ) (action : A) (s : Scheduler A)
      → IsQueue s
      → IsScheduled when label action s (at when label action s)
  unfolding at
  at-IsScheduled when label action s q =
      let e = new_event when label action s in
      let es = s.heap ++ e ∷ [] in
      let (sorted, distinct) =
        sort_events_facts es (Distinct-append s.heap e q.numbered q.distinct) in
      let (earlier, later, kept, added) = sort_events-IsPut e s.heap q.sorted in
      let queue : IsQueue (at when label action s) = record {
        sorted = sorted;
        distinct = distinct;
        future =
            All-sort (λ (d : Event A). s.now ≤ d.at) es
              (All-append (λ (d : Event A). s.now ≤ d.at) s.heap e q.future (ground arith));
        numbered =
            All-sort (λ (d : Event A). d.seq < suc s.seq) es
              (All-append (λ (d : Event A). d.seq < suc s.seq) s.heap e
                (All-map (λ (d : Event A). d.seq < s.seq) (λ (d : Event A). d.seq < suc s.seq)
                  s.heap (λ d small. omega (arith, small)) q.numbered)
                (omega arith));
      } in
      record {
        queue = queue;
        earlier = earlier;
        later = later;
        kept = kept;
        added = added;
        clock = refl;
        counted = refl;
      }
