-- ===== src/Base/Table.antt =====
-- Facts about all bytes, checked by evaluating a table.
use sim.Base.Tests.{if◌then◌else◌, ◌==◌, ==_iff}
use Prim.Native.Nat.{ℕ, zero, suc, ◌<◌}
use mathlib.Core.Path.{◌≡◌}
use mathlib.Core.Bool.{Bool, true, false}
use native.Mathlib.Omega.{arith}

-- Does the test hold of every number below `size`?
unfoldable pub all_below : (size : ℕ) (test : ℕ → Bool) → Bool
all_below zero test = true
all_below (suc k) test = if test k then all_below k test else false

pub all_below_sound :
    (size : ℕ) (test : ℕ → Bool) (b : ℕ) → all_below size test ≡ true → b < size → test b ≡ true
unfolding all_below
all_below_sound zero test b checked small = absurd (omega arith)
all_below_sound (suc k) test b checked small =
    let below = all_below_sound k test b in ground (arith, below)

-- Two functions that agree on a table are equal at every argument below its size.
pub eq_by_table :
    (n : ℕ) (f g : ℕ → ℕ) (x : ℕ) → all_below n (λ y. f y == g y) ≡ true → x < n → f x ≡ g x
eq_by_table n f g x h lt = (==_iff _ _).0 (all_below_sound n (λ y. f y == g y) x h lt)
