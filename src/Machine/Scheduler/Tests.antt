-- ===== src/Machine/Scheduler/Tests.antt =====
-- The theorems on the scheduler at concrete inputs: an action is a number that is added.
use sim.Base.{ℕ, ◌+◌, ◌*◌, ◌≡◌, inl, inr, refl, some, List, [], ◌∷◌, length, arith}
use sim.Machine.Scheduler.{Event, Scheduler, at, run_until}
use sim.Machine.Scheduler.Order.{IsQueue, IsScheduled, at-IsScheduled}
use sim.Machine.Scheduler.Run.{due, quiet, perform, finished, run_until-quiet}

abbrev effect0 : ℕ → ℕ → ℕ
effect0 a w = w * 10 + a

abbrev queue0 : List (Event ℕ)
queue0 =
    record { at = 3; seq = 1; label = []; action = 4 }
    ∷ record { at = 3; seq = 2; label = []; action = 5 }
    ∷ record { at = 9; seq = 0; label = []; action = 6 }
    ∷ []

abbrev scheduler0 : Scheduler ℕ
scheduler0 = record { heap = queue0; seq = 3; now = 2 }

queue0-IsQueue : IsQueue scheduler0
queue0-IsQueue = record {
  sorted =
      ((inr (refl, omega arith), (inl (omega arith), tt)), ((inl (omega arith), tt), (tt, tt)));
  distinct = (
    (λ e. omega (arith, e), (λ e. omega (arith, e), tt)),
    ((λ e. omega (arith, e), tt), (tt, tt)),
  );
  future = (omega arith, (omega arith, (omega arith, tt)));
  numbered = (omega arith, (omega arith, (omega arith, tt)));
}

at-IsScheduled_example : IsScheduled 1 [] 7 scheduler0 (at 1 [] 7 scheduler0)
at-IsScheduled_example = at-IsScheduled 1 [] 7 scheduler0 queue0-IsQueue

run_until-quiet_example :
    run_until (quiet effect0) (length queue0) 5 scheduler0 0
    ≡ some (finished effect0 5 queue0 3 2, perform effect0 (due 5 queue0) 0)
run_until-quiet_example = run_until-quiet effect0 5 scheduler0 0 queue0-IsQueue
