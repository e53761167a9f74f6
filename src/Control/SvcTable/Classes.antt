-- ===== src/Control/SvcTable/Classes.antt =====
-- The table of supervisor calls over all R-bytes.
use sim.Base.{
  ℕ, ◌<◌, ◌≤◌, ◌≡◌, ◌≢◌, ◌↔◌, refl, Bool, true, false, not, ◌&&◌, ◌||◌, arith, leb, ◌==◌,
}
use sim.Base.Table.{all_below, all_below_sound}
use sim.Processor.Step.{DispatchClass, immediate, overlapped, delayed}
use sim.Processor.Instructions.{inline_parameters}
use sim.Control.SvcTable.{is_implemented, classify}

is_delayed : DispatchClass → Bool
is_delayed delayed = true
is_delayed _ = false

is_delayed_iff : (c : DispatchClass) → is_delayed c ≡ true ↔ c ≡ delayed
unfolding is_delayed
is_delayed_iff delayed = (λ h. refl, λ h. refl)
is_delayed_iff immediate = (λ h. ground arith, λ h. ground arith)
is_delayed_iff overlapped = (λ h. ground arith, λ h. ground arith)

implied : Bool → Bool → Bool
implied a b = not a || b

implied_lem : (a b : Bool) → implied a b ≡ true → a ≡ true → b ≡ true
unfolding implied
implied_lem a b h k = ground arith

in_range_table :
    all_below 256 (λ r.
      implied (leb 0x40 r && leb r 0x52) (is_delayed (classify r))
      && implied (is_delayed (classify r)) (leb 0x40 r && leb r 0x52))
    ≡ true
unfolding all_below classify is_delayed implied
in_range_table = refl

-- The delayed supervisor calls, those that go through an action control element, are exactly the
-- R-bytes 40 to 52.
classify-delayed : (r : ℕ) → r < 256 → classify r ≡ delayed ↔ (0x40 ≤ r) × (r ≤ 0x52)
classify-delayed r h =
    let t = all_below_sound 256 _ r in_range_table h in
    let (to, from) = is_delayed_iff (classify r) in
    let inside = leb 0x40 r && leb r 0x52 in
    let out = implied_lem (is_delayed (classify r)) inside (ground arith) in
    let back = implied_lem inside (is_delayed (classify r)) (ground arith) in
    (
      λ e. let b = out (from e) in (ground arith, ground arith),
      λ (low, high). to (back (ground arith)),
    )

parameters_table :
    all_below 256 (λ r. implied (not (inline_parameters r == 0)) (is_implemented r)) ≡ true
unfolding all_below inline_parameters is_implemented implied
parameters_table = refl

-- Every supervisor call whose instruction carries inline parameters is one that is dispatched.
inline_parameters-is_implemented :
    (r : ℕ) → r < 256 → inline_parameters r ≢ 0 → is_implemented r ≡ true
inline_parameters-is_implemented r h some_bytes =
    implied_lem (not (inline_parameters r == 0)) (is_implemented r)
      (all_below_sound 256 _ r parameters_table h) (ground arith)
