-- ===== src/Control/Transient/Service.antt =====
-- The order of service of src/Processors/ControlStorage/TransientArea.cpp.
use sim.Base.{
  by_cases, ℕ, zero, suc, ◌≤◌, ◌≡◌, refl, sym, ap, if-property, ◌∙◌, Bool, true, false, none,
  Option, some, List, [], ◌∷◌, ◌++◌, ltb, leb, Bool-cases, inl, inr, if◌then◌else◌, length, arith,
}
use sim.Control.Transient.{
  Request, TransientArea, is_error_stub, run_body, serve, set_not_busy, run, schedule,
}

-- `effect` is what a body does and `more` what it schedules; the calls of `schedule` in it have a host
-- and fuel of their own, which do not matter while the area is busy.
module _ {ℓ} {W : Type ℓ} (effect : Request → W → W) (more : Request → List Request)
    (host : Request → TransientArea → W → TransientArea × W) (left : ℕ) where
  -- What is left of the area and the state after a call, should it not end.
  abbrev or_unchanged : TransientArea × W → Option (TransientArea × W) → TransientArea × W
  or_unchanged before none = before
  or_unchanged before (some after) = after

  -- The requests are scheduled one after another, by calls of `schedule` in a body.
  abbrev pub schedule_all : List Request → TransientArea → W → TransientArea × W
  schedule_all [] area w = (area, w)
  schedule_all (q ∷ qs) area w =
      let (area', w') = or_unchanged (area, w) (schedule host left q area w) in
      schedule_all qs area' w'

  -- A body that does something and schedules requests.
  abbrev pub scheduling : Request → TransientArea → W → TransientArea × W
  scheduling r area w = schedule_all (more r) area (effect r w)

  -- What a body does: nothing for an error stub.
  abbrev pub effect_of : Request → W → W
  effect_of r w = if is_error_stub r.id then w else effect r w

  -- The requests that are not refused for their identifier.
  abbrev pub accepted : List Request → List Request
  accepted [] = []
  accepted (q ∷ qs) = let rest = accepted qs in if leb q.id 0x40 then q ∷ rest else rest

  -- What a body schedules: nothing for an error stub.
  abbrev pub scheduled_by : Request → List Request
  scheduled_by r = if is_error_stub r.id then [] else accepted (more r)

  -- The requests are served first come, first served, each with what it schedules put behind those
  -- that wait: `order` is the order in which all of them run.
  pub data Served : List Request → List Request → Type 0 where
    done : Served [] []
    first :
        (r : Request) (waiting order : List Request)
        → Served (waiting ++ scheduled_by r) order
        → Served (r ∷ waiting) (r ∷ order)

  abbrev pub perform : List Request → W → W
  perform [] w = w
  perform (r ∷ rs) w = perform rs (effect_of r w)

  append-nil : (rs : List Request) → rs ++ [] ≡ rs
  append-nil [] = refl
  append-nil (r ∷ rs) = ap (λ t. r ∷ t) (append-nil rs)

  append_assoc : (xs ys zs : List Request) → (xs ++ ys) ++ zs ≡ xs ++ (ys ++ zs)
  append_assoc [] ys zs = refl
  append_assoc (x ∷ xs) ys zs = ap (λ t. x ∷ t) (append_assoc xs ys zs)

  -- A busy area with this queue, and the state.
  abbrev busy_with : List Request → W → TransientArea × W
  busy_with q v = (record { queue = q; busy = true }, v)

  schedule_busy :
      (q : Request) (qs : List Request) (w : W)
      → schedule host left q (record { queue = qs; busy = true }) w
        ≡ some (busy_with (qs ++ accepted (q ∷ [])) w)
  unfolding schedule
  schedule_busy q qs w = elim (Bool-cases (leb q.id 0x40)) [
    | inl small ↦ let not_large : ltb 0x40 q.id ≡ false = ground arith in rw (not_large, small) refl
    | inr large ↦
        let too_large : ltb 0x40 q.id ≡ true = ground arith in
        rw (too_large, large) (ap (λ l. some (busy_with l w)) (sym (append-nil qs)))
  ]

  accepted-append :
      (q : Request) (qs : List Request) → accepted (q ∷ qs) ≡ accepted (q ∷ []) ++ accepted qs
  accepted-append q qs =
      if-property (λ l. l ≡ accepted (q ∷ []) ++ accepted qs) (leb q.id 0x40) _ _ (λ c. rw c refl)
        (λ c. rw c refl)

  schedule_all_busy :
      (rs qs : List Request) (w : W)
      → schedule_all rs (record { queue = qs; busy = true }) w ≡ busy_with (qs ++ accepted rs) w
  schedule_all_busy [] qs w = ap (λ l. busy_with l w) (sym (append-nil qs))
  schedule_all_busy (q ∷ rs) qs w =
      let now = accepted (q ∷ []) in
      ap (λ o. let p = or_unchanged (busy_with qs w) o in schedule_all rs p.0 p.1)
        (schedule_busy q qs w)
      ∙ schedule_all_busy rs (qs ++ now) w
      ∙ ap (λ l. busy_with l w)
          (append_assoc qs now (accepted rs) ∙ ap (λ l. qs ++ l) (sym (accepted-append q rs)))

  run_body-scheduling :
      (r : Request) (rs : List Request) (w : W) (busy : Bool)
      → run_body scheduling r (record { queue = rs; busy = busy }) w
        ≡ busy_with (rs ++ scheduled_by r) (effect_of r w)
  unfolding run_body
  run_body-scheduling r rs w busy =
      let P = λ (c : Bool).
        (if c
          then busy_with rs w
          else schedule_all (more r) (record { queue = rs; busy = true }) (effect r w))
        ≡ busy_with (rs ++ (if c then [] else accepted (more r))) (if c then w else effect r w) in
      by_cases P (is_error_stub r.id)
        (λ c. ap (λ (q : List Request). busy_with q w) (sym (append-nil rs)))
        (λ c. schedule_all_busy (more r) rs (effect r w))

  serve-order :
      (fuel : ℕ) (queue order : List Request) (busy : Bool) (w : W)
      → Served queue order
      → length order ≤ fuel
      → serve scheduling fuel queue (record { queue = queue; busy = busy }) w
        ≡ some (record { queue = []; busy = false }, perform order w)
  unfolding serve
  serve-order fuel _ _ busy w done enough = refl
  serve-order zero _ _ busy w (first r waiting order served) enough = absurd (omega arith)
  serve-order (suc fuel) _ _ busy w (first r waiting order served) enough =
      ap (λ (p : TransientArea × W). serve scheduling fuel p.0.queue p.0 p.1)
        (run_body-scheduling r waiting w false)
      ∙ serve-order fuel (waiting ++ scheduled_by r) order true (effect_of r w) served (omega arith)

  -- Where each body changes the state and makes some calls of `schedule`, a request that the idle area
  -- accepts is run at once. What the bodies schedule meanwhile by their
  -- calls, less the requests that it refuses, runs after it, in the order of the calls, and
  -- then the area is idle again. Fuel of one for each request that runs is enough.
  pub schedule-order :
      (fuel : ℕ) (r : Request) (order : List Request) (w : W)
      → ltb 0x40 r.id ≡ false
      → Served (r ∷ []) order
      → length order ≤ suc fuel
      → schedule scheduling fuel r (record { queue = []; busy = false }) w
        ≡ some (record { queue = []; busy = false }, perform order w)
  unfolding schedule run set_not_busy
  schedule-order fuel r _ w accepted (first r' _ order served) enough =
      let idle : TransientArea = record { queue = []; busy = false } in
      if-property (λ o. o ≡ some (idle, perform order (effect_of r w))) (ltb 0x40 r.id) _ _
        (λ c. absurd (ground (arith, c, accepted)))
        (λ c.
          ap (λ (p : TransientArea × W). serve scheduling fuel p.0.queue p.0 p.1)
            (run_body-scheduling r [] w false)
          ∙ serve-order fuel (scheduled_by r) order true (effect_of r w) served (omega arith))
