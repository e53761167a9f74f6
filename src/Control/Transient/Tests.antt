-- ===== src/Control/Transient/Tests.antt =====
-- The order of service of the transient area at concrete requests: the first schedules another.
use sim.Base.{ℕ, ◌+◌, ◌*◌, ◌≡◌, refl, false, some, List, [], ◌∷◌, ◌==◌, if◌then◌else◌, arith}
use sim.Control.Transient.{Request, TransientArea, is_error_stub, schedule}
use sim.Control.Transient.Service.{scheduling, Served, done, first, perform, schedule-order}

abbrev request : ℕ → Request
request id = record { id = id; p2 = 0; p3 = 0; xr1 = 0; xr2 = 0; task_block = 0; request_block = 0 }

abbrev effect0 : Request → ℕ → ℕ
effect0 r w = w * 100 + r.id

-- The timer schedules the loader, and a request that is refused.
abbrev more0 : Request → List Request
more0 r = if r.id == 0x0a then request 0x41 ∷ request 0x03 ∷ [] else []

abbrev host0 : Request → TransientArea → ℕ → TransientArea × ℕ
host0 r area w = (area, w)

served0 : Served effect0 more0 host0 0 (request 0x0a ∷ []) (request 0x0a ∷ request 0x03 ∷ [])
unfolding is_error_stub
served0 = first (request 0x0a) [] _ (first (request 0x03) [] [] done)

schedule-order_example :
    schedule
      (scheduling effect0 more0 host0 0)
      3
      (request 0x0a)
      (record { queue = []; busy = false })
      0
    ≡ some (
      record { queue = []; busy = false },
      perform effect0 more0 host0 0 (request 0x0a ∷ request 0x03 ∷ []) 0,
    )
schedule-order_example =
    schedule-order effect0 more0 host0 0 3 (request 0x0a) (request 0x0a ∷ request 0x03 ∷ []) 0 refl
      served0 (omega arith)
