-- ===== src/Machine/Registers/Status.antt =====
-- The program status register: exactly one of High (0x04), Low (0x02) and Equal (0x01) is on.
use sim.Base.{
  ℕ, ◌<◌, ◌≡◌, refl, ap, bit_and, Bool, true, ◌&&◌, ◌||◌, arith, ◌==◌, ltb, ltb→lt, if◌then◌else◌,
}
use sim.Base.Table.{all_below, all_below_sound}
use sim.Machine.Registers.{Registers, normalize, load_psr}

abbrev pub is_one_condition : ℕ → Bool
is_one_condition p = bit_and p 7 == 1 || bit_and p 7 == 2 || bit_and p 7 == 4

-- Equal wins over Low, and High stands where neither was asked for.
abbrev pub condition_of : ℕ → ℕ
condition_of v = if bit_and v 1 == 1 then 1 else if bit_and v 2 == 2 then 2 else 4

normalize_table :
    all_below 256 (λ v.
      is_one_condition (normalize v)
      && bit_and (normalize v) 7 == condition_of v
      && bit_and (normalize v) 0xf8 == bit_and v 0xf8
      && normalize (normalize v) == normalize v)
    ≡ true
unfolding all_below normalize
normalize_table = refl

normalize-lt_table : all_below 256 (λ v. ltb (normalize v) 256) ≡ true
unfolding all_below normalize
normalize-lt_table = refl

pub normalize-lt : (v : ℕ) → v < 256 → normalize v < 256
normalize-lt v h =
    ltb→lt _ _ (all_below_sound 256 (λ x. ltb (normalize x) 256) v normalize-lt_table h)

-- Loading a byte into the status register sets exactly the condition that the byte asks for (Equal
-- before Low, High where neither is on), keeps the five other bits, and loading the result once
-- more changes nothing.
load_psr-condition :
    (r : Registers) (v : ℕ)
    → v < 256
    → (bit_and (load_psr r v).psr 7 ≡ condition_of v)
      × (bit_and (load_psr r v).psr 0xf8 ≡ bit_and v 0xf8)
      × (load_psr (load_psr r v) (load_psr r v).psr ≡ load_psr r v)
unfolding load_psr
load_psr-condition r v h =
    let t = all_below_sound 256 _ v normalize_table h in
    (ground (arith, t), ground (arith, t), ap (λ n. record r { psr = n }) (ground (arith, t)))
