-- ===== src/Machine/Scheduler.antt =====
-- `Scheduler` of src/Machine/Scheduler.{h,cpp}. `A` names the actions of events; what an action does
-- to the scheduler and to the rest of the machine is an argument of `run_until`. A time is not
-- negative; a label is a list of character codes.
pub mod Order
pub mod Run
mod Tests
use sim.Base.{
  ℕ, zero, suc, ◌+◌, Bool, true, false, Option, none, some, List, [], ◌∷◌, ◌++◌, ltb, leb, ◌==◌,
  if◌then◌else◌, length,
}

pub record Event {ℓ} (A : Type ℓ) : Type ℓ where
  pub at : ℕ
  pub seq : ℕ
  pub label : List ℕ
  pub action : A

pub record Scheduler {ℓ} (A : Type ℓ) : Type ℓ where
  pub heap : List (Event A)
  pub seq : ℕ
  pub now : ℕ

module _ {ℓ} {A : Type ℓ} where
  unfoldable pub pending : Scheduler A → ℕ
  pending s = length s.heap

  -- The order of the sort: by time, then by sequence.
  unfoldable pub is_before : Event A → Event A → Bool
  is_before a b = if a.at == b.at then ltb a.seq b.seq else ltb a.at b.at

  unfoldable pub insert_event : Event A → List (Event A) → List (Event A)
  insert_event e [] = e ∷ []
  insert_event e (x ∷ xs) =
      let rest = insert_event e xs in if is_before x e then x ∷ rest else e ∷ x ∷ xs

  -- `std::stable_sort`.
  unfoldable pub sort_events : List (Event A) → List (Event A)
  sort_events [] = []
  sort_events (e ∷ es) = insert_event e (sort_events es)

  unfoldable pub at : (when : ℕ) (label : List ℕ) → A → Scheduler A → Scheduler A
  at when label action s =
      let e : Event A = record {
        at = if ltb when s.now then s.now else when;
        seq = s.seq;
        label = label;
        action = action;
      } in
      record { heap = sort_events (s.heap ++ e ∷ []); seq = suc s.seq; now = s.now }

  unfoldable pub after : (delta : ℕ) (label : List ℕ) → A → Scheduler A → Scheduler A
  after delta label action s = at (s.now + delta) label action s

  unfoldable pub clear : Scheduler A → Scheduler A
  clear s = record s { heap = [] }

  -- The clock of a checkpoint, for an empty queue.
  unfoldable pub restore_clock : ℕ → Scheduler A → Bool × Scheduler A
  restore_clock now s =
      if length s.heap == 0 then (true, record s { now = now; seq = 0 }) else (false, s)

  unfoldable pub settle : ℕ → Scheduler A → Scheduler A
  settle until s = record s { now = if ltb s.now until then until else s.now }

  -- Without its first event, at that event's time.
  unfoldable pub take_event : Event A → List (Event A) → Scheduler A → Scheduler A
  take_event e es s = record s { heap = es; now = e.at }

  module _ {κ} {W : Type κ} (run : A → Scheduler A → W → Scheduler A × W) where
    -- The loop of `runUntil` at a queue, for at most so many events; `none` is that more are due.
    unfoldable pub run_from :
        (left until : ℕ) → List (Event A) → Scheduler A → W → Option (Scheduler A × W)
    run_from left until [] s w = some (settle until s, w)
    run_from zero until (e ∷ es) s w = if leb e.at until then none else some (settle until s, w)
    run_from (suc left) until (e ∷ es) s w =
        let (s', w') = run e.action (take_event e es s) w in
        let later = run_from left until s'.heap s' w' in
        if leb e.at until then later else some (settle until s, w)

    unfoldable pub run_until : (left until : ℕ) → Scheduler A → W → Option (Scheduler A × W)
    run_until left until s w = run_from left until s.heap s w
