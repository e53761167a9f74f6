-- ===== src/Control/Elements.antt =====
-- The guest structures of a delayed supervisor call, in
-- src/Processors/ControlStorage/ActionControlElement.{h,cpp}, and the queues of action control
-- elements in ActionControlElementQueue.cpp.
pub mod Post
pub mod Queue
pub mod Links
pub mod Fifo
mod Tests
use sim.Base.{
  ℕ, zero, suc, ◌+◌, ◌-◌, ◌*◌, ◌/◌, ◌%◌, ◌^◌, bit_and, bit_or, Bool, true, false, not, Option, none,
  some, List, [], ◌∷◌, ◌==◌, if◌then◌else◌,
}
use sim.Machine.Registers.{has}
use sim.Machine.State.{
  Machine, read_byte, write_byte, read_half, write_half, read_addr24, write_addr24,
}

-- XR1 and XR2 of a request block: a byte and a half word apart.
unfoldable pub read_xr_field : Machine → (high low : ℕ) → ℕ × Machine
read_xr_field m high low =
    let (h, m1) = read_byte m high in let (l, m2) = read_half m1 low in (bit_or (h * 2 ^ 16) l, m2)

unfoldable pub read_xr1_field : Machine → ℕ → ℕ × Machine
unfolding read_xr_field
read_xr1_field m rb = read_xr_field m (rb + 9) (rb + 26)

unfoldable pub read_xr2_field : Machine → ℕ → ℕ × Machine
unfolding read_xr_field
read_xr2_field m rb = read_xr_field m (rb + 11) (rb + 28)

unfoldable pub write_xr1 : Machine → ℕ → ℕ → Machine
write_xr1 m rb v = write_half (write_byte m (rb + 9) (v / 2 ^ 16 % 2 ^ 8)) (rb + 26) (v % 2 ^ 16)

unfoldable pub write_xr2 : Machine → ℕ → ℕ → Machine
write_xr2 m rb v = write_half (write_byte m (rb + 11) (v / 2 ^ 16 % 2 ^ 8)) (rb + 28) (v % 2 ^ 16)

-- `n` is 4 to 7.
unfoldable pub read_wr : Machine → ℕ → ℕ → ℕ × Machine
read_wr m rb n = read_half m (rb + 32 + (n - 4) * 2)

unfoldable pub write_wr : Machine → ℕ → ℕ → ℕ → Machine
write_wr m rb n v = write_half m (rb + 32 + (n - 4) * 2) v

unfoldable pub is_privileged : Machine → ℕ → Bool × Machine
is_privileged m rb = let (b, m') = read_byte m (rb + 19) in (bit_and b 0x01 == 0, m')

-- An element from the request block `rb` of the task block `tb`.
unfoldable pub build : Machine → (ace rb tb q : ℕ) → Machine
build m ace rb tb q =
    let m1 = write_addr24 (write_half m ace 0xc1c3) (ace + 2) 0 in
    let (byte7, m2) = read_byte m1 (tb + 7) in
    let m3 = write_byte m2 (ace + 5) byte7 in
    let (iar, m4) = read_half m3 (rb + 24) in
    let m5 = write_half m4 (ace + 6) iar in
    let (header, m6) = read_byte m5 (rb + 16) in
    let m7 = write_byte m6 (ace + 8) header in
    let (xr1, m8) = read_xr1_field m7 rb in
    let m9 = write_addr24 m8 (ace + 13) xr1 in
    let (xr2, m10) = read_xr2_field m9 rb in
    let m11 = write_addr24 (write_addr24 m10 (ace + 16) xr2) (ace + 19) tb in
    let m12 = write_byte (write_addr24 (write_half m11 (ace + 22) 0) (ace + 24) 0) (ace + 27) 0 in
    let m13 = write_byte m12 (ace + 28) (bit_or 0x80 (bit_and q 0x08)) in
    let (copy, m14) = read_xr1_field m13 rb in write_addr24 m14 (ace + 29) copy

unfoldable pub apply_task_association : Machine → (ace q : ℕ) → Machine
apply_task_association m ace q =
    let (xr2, m') = read_addr24 m (ace + 16) in
    if has q 0x10 then write_addr24 m' (ace + 19) xr2 else m

-- The event control mask.
unfoldable pub is_complete : Machine → ℕ → Bool × Machine
unfolding has
is_complete m ecm = let (b, m') = read_byte m (ecm + 6) in (has b 0x40, m')

unfoldable pub arm : ℕ → ℕ
arm completion = bit_and (bit_and completion 0xfd) 0x0f

unfoldable pub post : Machine → (ecm completion_code : ℕ) → Machine
post m ecm completion_code =
    write_addr24 (write_byte m (ecm + 6) (bit_or 0x40 (bit_and completion_code 0x0f))) (ecm + 2) 0

-- Where the three bytes of a queue header start.
unfoldable pub header_address : ℕ → ℕ
header_address number = 0xb03 + number * 4 - 2

-- The last element of a chain, followed for at most so many links.
unfoldable pub tail : ℕ → ℕ → Machine → ℕ × Machine
tail zero at m = (at, m)
tail (suc guard) at m =
    let (next, m') = read_addr24 m (at + 2) in
    let later = tail guard next m' in if next == 0 then (at, m') else later

unfoldable pub enqueue : Machine → (header_number ace : ℕ) → Machine
unfolding header_address tail
enqueue m header_number ace =
    let header = header_address header_number in
    let (head, m1) = read_addr24 m header in
    let m2 = write_addr24 m1 (ace + 2) 0 in
    let (last, m3) = tail 4096 head m2 in
    if head == 0 then write_addr24 m2 header ace else write_addr24 m3 (last + 2) ace

unfoldable pub chain : ℕ → ℕ → Machine → List ℕ × Machine
chain zero at m = ([], m)
chain (suc guard) at m =
    let (next, m1) = read_addr24 m (at + 2) in
    let (rest, m2) = chain guard next m1 in if at == 0 then ([], m) else (at ∷ rest, m2)

unfoldable pub elements : Machine → ℕ → List ℕ × Machine
unfolding header_address chain
elements m header_number =
    let (head, m') = read_addr24 m (header_address header_number) in chain 4096 head m'
