-- ===== src/Machine/Scheduler/Run.antt =====
-- `runUntil` of src/Machine/Scheduler.cpp: the due events, in order.
use sim.Base.{
  by_cases, ℕ, zero, suc, ◌≤◌, ◌<◌, ◌≡◌, refl, sym, ap, ap₂, Bool, some, List, [], ◌∷◌, leb, ltb,
  if◌then◌else◌, arith, All, length,
}
use sim.Machine.Scheduler.{Event, Scheduler, take_event, settle, run_from, run_until}
use sim.Machine.Scheduler.Order.{Before, IsSorted, IsQueue}

module _ {ℓ} {A : Type ℓ} where
  -- The events of a queue that are due, and the others.
  abbrev pub due : ℕ → List (Event A) → List (Event A)
  due until [] = []
  due until (e ∷ es) = let rest = due until es in if leb e.at until then e ∷ rest else rest

  abbrev pub later_than : ℕ → List (Event A) → List (Event A)
  later_than until [] = []
  later_than until (e ∷ es) =
      let rest = later_than until es in if leb e.at until then rest else e ∷ rest

  abbrev pub last_time : ℕ → List (Event A) → ℕ
  last_time now [] = now
  last_time now (e ∷ es) = last_time e.at es

  -- After an event that is not due come none that are.
  none_due :
      (until : ℕ) (e : Event A) (es : List (Event A))
      → until < e.at
      → All (Before e) es
      → (due until es ≡ []) × (later_than until es ≡ es)
  none_due until e [] h b = (refl, refl)
  none_due until e (x ∷ xs) h (b, bs) =
      let (d, l) = none_due until e xs h bs in
      let P = λ (c : Bool).
        ((if c then x ∷ due until xs else due until xs) ≡ [])
        × ((if c then later_than until xs else x ∷ later_than until xs) ≡ x ∷ xs) in
      by_cases P (leb x.at until) (λ c. absurd (ground (arith, b, c)))
        (λ c. (d, ap (λ ys. x ∷ ys) l))

  module _ {κ} {W : Type κ} (effect : A → W → W) where
    -- An action that leaves the scheduler alone.
    abbrev pub quiet : A → Scheduler A → W → Scheduler A × W
    quiet action s w = (s, effect action w)

    abbrev pub perform : List (Event A) → W → W
    perform [] w = w
    perform (e ∷ es) w = perform es (effect e.action w)

    -- The scheduler after the events that are due.
    abbrev pub finished : ℕ → List (Event A) → ℕ → ℕ → Scheduler A
    finished until es seq now =
        let last = last_time now (due until es) in
        record {
          heap = later_than until es;
          seq = seq;
          now = if ltb last until then until else last;
        }

    run_from-quiet :
        (left until : ℕ) (es : List (Event A)) (seq now : ℕ) (w : W)
        → IsSorted es
        → length es ≤ left
        → run_from quiet left until es (record { heap = es; seq = seq; now = now }) w
          ≡ some (finished until es seq now, perform (due until es) w)
    unfolding run_from take_event settle
    run_from-quiet left until [] seq now w sorted enough = refl
    run_from-quiet zero until (e ∷ es) seq now w sorted enough = absurd (omega arith)
    run_from-quiet (suc left) until (e ∷ es) seq now w (first, sorted) enough =
        let s : Scheduler A = record { heap = es; seq = seq; now = e.at } in
        let stopped : Scheduler A = record { heap = e ∷ es; seq = seq; now = now } in
        let rest = run_from-quiet left until es seq e.at (effect e.action w) sorted (omega arith) in
        let D = due until es in
        let L = later_than until es in
        let P = λ (c : Bool).
          (if c
            then run_from quiet left until es s (effect e.action w)
            else some (settle until stopped, w))
          ≡ some (
            settle until (record {
              heap = if c then L else e ∷ L;
              seq = seq;
              now = last_time now (if c then e ∷ D else D);
            }),
            perform (if c then e ∷ D else D) w,
          ) in
        by_cases P (leb e.at until) (λ c. rest)
          (λ c.
            let (none_left, all_left) = none_due until e es (ground (arith, c)) first in
            ap₂
              (λ (d l : List (Event A)). some (
                settle until (record { heap = e ∷ l; seq = seq; now = last_time now d }),
                perform d w,
              ))
              (sym none_left) (sym all_left))

    -- `runUntil` on a queue in order, where the actions schedule nothing: fuel of one for each event
    -- is enough, exactly the events that are due are performed, in the order of the queue, the
    -- others stay, and the clock ends at the time of the last event that was due, or where it was if
    -- none was, but not before the given time.
    pub run_until-quiet :
        (until : ℕ) (s : Scheduler A) (w : W)
        → IsQueue s
        → run_until quiet (length s.heap) until s w
          ≡ some (finished until s.heap s.seq s.now, perform (due until s.heap) w)
    unfolding run_until
    run_until-quiet until s w q =
        run_from-quiet (length s.heap) until s.heap s.seq s.now w q.sorted (omega arith)
