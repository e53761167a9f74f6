-- ===== src/Processor/Selection/RoundTrip.antt =====
-- L, ST, A and S: what the register that a Q-byte selects holds afterwards.
use sim.Base.{
  ℕ, zero, suc, ◌+◌, ◌-◌, ◌*◌, ◌%◌, ◌^◌, ◌<◌, ◌≡◌, ◌≢◌, refl, Bool, true, false, List, [], ◌∷◌,
  arith, if◌then◌else◌, get_or, set, length, ltb,
}
use sim.Base.Bits.{or_fields}
use sim.Machine.Registers.{IsWide, load_psr}
use sim.Processor.Core.{Processor, msp_of, load_psr_of}
use sim.Processor.Core.Access.{Field, IsBytes, bytes, read_operand_ok, unless_aborted-store}
use sim.Processor.Selection.{
  Selected, nothing, index1, index2, status, arr_register, iar_register, work, prefix_dir,
  prefix_xr1, prefix_xr2, prefix_iar, other, selected, set_iar, set_xr1, set_xr2, put_selected,
  set_selected, value_selected, get_selected, read_field, load_register, put_result, store_sum,
  add_to_register, register_status, register_sum, register_carry,
}

get-set : (xs : List ℕ) (i v : ℕ) → i < length xs → get_or (set xs i v) i 0 ≡ v
get-set [] i v h = absurd (omega arith)
get-set (x ∷ xs) zero v h = refl
get-set (x ∷ xs) (suc i) v h = get-set xs i v (omega arith)

-- A selector that names a register of 16 bits; a work register must exist.
unfoldable pub is_full : Selected → Bool
is_full nothing = false
is_full status = false
is_full prefix_dir = false
is_full (work i) = ltb i 8
is_full _ = true

put_selected-value :
    (s : Selected) (v : ℕ) (p : Processor)
    → length (msp_of p).wr ≡ 8
    → is_full s ≡ true
    → (value_selected s (msp_of (put_selected s v p))).0 ≡ v
unfolding put_selected value_selected set_xr1 set_xr2 set_iar is_full
put_selected-value nothing v p n h = ground arith
put_selected-value status v p n h = ground arith
put_selected-value prefix_dir v p n h = ground arith
put_selected-value (work i) v p n h = get-set (msp_of p).wr i v (ground arith)
put_selected-value index1 v p n h = refl
put_selected-value index2 v p n h = refl
put_selected-value arr_register v p n h = refl
put_selected-value iar_register v p n h = refl
put_selected-value prefix_xr1 v p n h = refl
put_selected-value prefix_xr2 v p n h = refl
put_selected-value prefix_iar v p n h = refl
put_selected-value other v p n h = refl

selected-full : (q : ℕ) → q ≢ 0x00 → q ≢ 0x04 → q ≢ 0xa0 → is_full (selected q) ≡ true
unfolding selected is_full
selected-full q a b c = ground arith

-- Every selector but 00, 04 and A0 names a whole register of 16 bits: what `set_selected` stores
-- there `get_selected` returns. The selectors that neither names are XR1 for both.
get_selected-set_selected :
    (q v : ℕ) (p : Processor)
    → IsWide (msp_of p)
    → q ≢ 0x00
    → q ≢ 0x04
    → q ≢ 0xa0
    → (get_selected q (msp_of (set_selected q v p))).0 ≡ v
unfolding get_selected set_selected
get_selected-set_selected q v p w a b c =
    put_selected-value (selected q) v p w.wr_count (selected-full q a b c)

-- A field of two bytes is a number with the upper byte on the left.
pub read_field_ok :
    (p : Processor) (a : ℕ → ℕ)
    → Field p true 2 a
    → IsBytes (bytes p)
    → read_field p ≡ (bytes p (a 1) * 256 + bytes p (a 0), p)
unfolding read_field
read_field_ok p a f b =
    let hi = read_operand_ok p true f 1 (omega arith) in
    let lo = read_operand_ok p true f 0 (omega arith) in
    let join = or_fields 8 (bytes p (a 1)) (bytes p (a 0)) (b (a 0)) in rw (hi, lo) (ground arith)

-- L with a field of two bytes within reach loads the register that Q selects with the field's
-- number, for every selector of a whole register without a prefix or with one.
load_register-Field :
    (q : ℕ) (p : Processor) (a : ℕ → ℕ)
    → Field p true 2 a
    → IsBytes (bytes p)
    → IsWide (msp_of p)
    → q ≢ 0x00
    → q ≢ 0x04
    → q ≢ 0xa0
    → (get_selected q (msp_of (load_register q p))).0 ≡ bytes p (a 1) * 256 + bytes p (a 0)
unfolding load_register
load_register-Field q p a f b w x y z =
    let v = bytes p (a 1) * 256 + bytes p (a 0) in
    rw (read_field_ok p a f b, unless_aborted-store p (bytes p) (set_selected q v) f.clear)
      (get_selected-set_selected q v p w x y z)

put_result-value :
    (s : Selected) (v psr : ℕ) (p : Processor)
    → length (msp_of p).wr ≡ 8
    → is_full s ≡ true
    → (value_selected s (msp_of (load_psr_of (put_result s v p) psr))).0 ≡ v
unfolding put_result put_selected value_selected set_xr1 set_xr2 set_iar is_full load_psr_of
    load_psr
put_result-value nothing v psr p n h = ground arith
put_result-value status v psr p n h = ground arith
put_result-value prefix_dir v psr p n h = ground arith
put_result-value (work i) v psr p n h = get-set (msp_of p).wr i v (ground arith)
put_result-value index1 v psr p n h = refl
put_result-value index2 v psr p n h = refl
put_result-value arr_register v psr p n h = refl
put_result-value iar_register v psr p n h = refl
put_result-value prefix_xr1 v psr p n h = refl
put_result-value prefix_xr2 v psr p n h = refl
put_result-value prefix_iar v psr p n h = refl
put_result-value other v psr p n h = refl

-- Addition and subtraction modulo 2 ^ 16.
abbrev pub wrapped : Bool → ℕ → ℕ → ℕ
wrapped subtract reg operand =
    (if subtract then reg + 0x10000 - operand else reg + operand) % 0x10000

register_sum-wrapped :
    (subtract : Bool) (reg operand : ℕ)
    → operand < 0x10000
    → register_sum subtract reg operand % 2 ^ 16 ≡ wrapped subtract reg operand
unfolding register_sum
register_sum-wrapped subtract reg operand o = ground arith

store_sum-value :
    (q : ℕ) (subtract : Bool) (reg operand : ℕ) (p : Processor)
    → length (msp_of p).wr ≡ 8
    → operand < 0x10000
    → q ≢ 0x00
    → q ≢ 0x04
    → q ≢ 0xa0
    → (get_selected q (msp_of (store_sum q subtract reg operand p))).0
      ≡ wrapped subtract reg operand
unfolding store_sum get_selected
store_sum-value q subtract reg operand p n o x y z =
    let sum = register_sum-wrapped subtract reg operand o in
    let result = register_sum subtract reg operand % 2 ^ 16 in
    let stored = put_result (selected q) result p in
    let carry = register_carry subtract reg operand in
    let value =
      put_result-value (selected q) result
        (register_status subtract result carry (msp_of stored).psr) p n (selected-full q x y z) in
    ground arith

-- A and S with a field of two bytes within reach leave in the register that Q selects the sum or the
-- difference with the field's number modulo 2 ^ 16, for every selector of a whole register.
pub add_to_register-wrapped :
    (q : ℕ) (subtract : Bool) (p : Processor) (a : ℕ → ℕ)
    → Field p true 2 a
    → IsBytes (bytes p)
    → IsWide (msp_of p)
    → q ≢ 0x00
    → q ≢ 0x04
    → q ≢ 0xa0
    → (get_selected q (msp_of (add_to_register q subtract p))).0
      ≡ wrapped subtract (get_selected q (msp_of p)).0 (bytes p (a 1) * 256 + bytes p (a 0))
unfolding add_to_register
add_to_register-wrapped q subtract p a f b w x y z =
    let v = bytes p (a 1) * 256 + bytes p (a 0) in
    let low = b (a 0) in
    let high = b (a 1) in
    let fits : v < 0x10000 = omega arith in
    rw
      (
        read_field_ok p a f b,
        unless_aborted-store p (bytes p) (store_sum q subtract (get_selected q (msp_of p)).0 v)
            f.clear,
      )
      (store_sum-value q subtract (get_selected q (msp_of p)).0 v p w.wr_count fits x y z)
