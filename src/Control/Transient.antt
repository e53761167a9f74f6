-- ===== src/Control/Transient.antt =====
-- `TransientArea` of src/Processors/ControlStorage/TransientArea.{h,cpp}. The host that runs the
-- body of a transient is an argument, which acts on the area, as far as it schedules more, and on a
-- state of its own; what it answers is only traced. `none` is that more requests are waiting than
-- there is fuel.
pub mod Service
mod Tests
use sim.Base.{
  ℕ, zero, suc, ◌+◌, Bool, true, false, ◌||◌, Option, none, some, List, [], ◌∷◌, ◌++◌, ltb, ◌==◌,
  if◌then◌else◌, length,
}

pub record Request : Type 0 where
  pub id : ℕ
  pub p2 : ℕ
  pub p3 : ℕ
  pub xr1 : ℕ
  pub xr2 : ℕ
  pub task_block : ℕ
  pub request_block : ℕ

pub record TransientArea : Type 0 where
  pub queue : List Request
  pub busy : Bool

unfoldable pub is_error_stub : ℕ → Bool
is_error_stub id = id == 0x1d || (id == 0x1e || (id == 0x31 || id == 0x36))

unfoldable pub has_emulated_body : ℕ → Bool
has_emulated_body id =
    id == 0x03 || (id == 0x05 || (id == 0x09 || (id == 0x0a || (id == 0x37 || id == 0x3e))))

unfoldable pub queue_depth : TransientArea → ℕ
queue_depth area = length area.queue

unfoldable pub reset : TransientArea → TransientArea
reset area = record { queue = []; busy = false }

module _ {ℓ} {W : Type ℓ} (run_transient : Request → TransientArea → W → TransientArea × W) where
  -- The body of `run`, which leaves out an error stub's.
  unfoldable pub run_body : Request → TransientArea → W → TransientArea × W
  run_body r area w =
      let busy = record area { busy = true } in
      if is_error_stub r.id then (busy, w) else run_transient r busy w

  -- `setNotBusy` and `run` call one another, here for at most so many requests: the first of the
  -- queue is taken and its body runs.
  unfoldable pub serve : (left : ℕ) → List Request → TransientArea → W → Option (TransientArea × W)
  serve left [] area w = some (record area { busy = false }, w)
  serve zero (r ∷ rs) area w = none
  serve (suc left) (r ∷ rs) area w =
      let (area', w') = run_body r (record { queue = rs; busy = false }) w in
      serve left area'.queue area' w'

  unfoldable pub set_not_busy : (left : ℕ) → TransientArea → W → Option (TransientArea × W)
  set_not_busy left area w = serve left area.queue area w

  unfoldable pub run : (left : ℕ) → Request → TransientArea → W → Option (TransientArea × W)
  run left r area w = let (area', w') = run_body r area w in set_not_busy left area' w'

  -- An identifier above 0x40 is error 55, which is only traced.
  unfoldable pub schedule : (left : ℕ) → Request → TransientArea → W → Option (TransientArea × W)
  schedule left r area w =
      if ltb 0x40 r.id
      then some (area, w)
      else if area.busy
      then some (record area { queue = area.queue ++ r ∷ [] }, w)
      else run left r area w
