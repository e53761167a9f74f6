-- ===== src/Control/Elements/Queue.antt =====
-- `ActionControlElementQueue` of src/Processors/ControlStorage/ActionControlElementQueue.{h,cpp}:
-- elements out of the system queue space, and the event control masks that they name. A `bool` of a
-- map is 0 or 1. An address that the code expects not to be negative is a ℕ.
use sim.Base.Int.{pos}
use sim.Base.{
  ℕ, zero, suc, ◌+◌, ◌%◌, bit_and, Bool, true, false, not, ◌&&◌, ◌||◌, Option, none, some, List, [],
  ◌∷◌, ltb, ◌==◌, if◌then◌else◌, length,
}
use sim.Machine.Registers.{has}
use sim.Machine.State.{
  Machine, read_byte, write_byte, write_half, read_addr24, write_addr24, resolve_guest24,
}
use sim.Control.Heap.Sets.{Extent, find, put, erase}
use sim.Control.Heap.FreeLists.{is_found, has_size}
use sim.Control.Heap.Pool.{GuestHeap, live_allocation_at}
use sim.Control.Heap.Requests.{allocate, free}
use sim.Control.Elements.{
  build, read_xr1_field, write_xr2, read_wr, apply_task_association, enqueue, post,
}

pub record ElementQueue : Type 0 where
  pub machine : Machine
  pub heap : GuestHeap
  pub allocated : List Extent
  pub real_ecm : List Extent
  pub multiple_wait : List Extent

-- What a checkpoint keeps; `next` and `free` are not used.
pub record ElementCheckpoint : Type 0 where
  pub allocated : List ℕ
  pub real_ecm_records : List ℕ

abbrev pub bool_number : Bool → ℕ
bool_number true = 1
bool_number false = 0

abbrev pub is_set : Option ℕ → Bool
is_set none = false
is_set (some n) = not (n == 0)

unfoldable pub keys : List Extent → List ℕ
keys [] = []
keys (e ∷ es) = e.off ∷ keys es

unfoldable pub ecm_records : List Extent → List Extent → List ℕ
ecm_records waits [] = []
ecm_records waits (e ∷ es) =
    e.off ∷ e.size ∷ bool_number (is_set (find e.off waits)) ∷ ecm_records waits es

unfoldable pub capture_checkpoint : ElementQueue → ElementCheckpoint
capture_checkpoint q = record {
  allocated = keys q.allocated;
  real_ecm_records = ecm_records q.multiple_wait q.real_ecm;
}

-- False where an element is there twice.
unfoldable pub restore_allocated : List ℕ → ElementQueue → Bool × ElementQueue
restore_allocated [] q = (true, q)
restore_allocated (a ∷ as') q =
    let later =
      restore_allocated as'
        (record q { allocated = put a (live_allocation_at q.heap a 32) q.allocated }) in
    if is_found (find a q.allocated) then (false, q) else later

-- The triples of element, mask and attribute; false at the first that is refused.
unfoldable pub restore_records : List ℕ → ElementQueue → Bool × ElementQueue
restore_records [] q = (true, q)
restore_records (a ∷ []) q = (false, q)
restore_records (a ∷ b ∷ []) q = (false, q)
restore_records (ace ∷ ecm ∷ wait ∷ v) q =
    let placed = record q { real_ecm = put ace ecm q.real_ecm } in
    let later =
      restore_records v (record placed {
        multiple_wait = put ace (bool_number (not (wait == 0))) q.multiple_wait;
      }) in
    if not (is_found (find ace q.allocated))
    then (false, q)
    else if not (ecm == 0) && ltb q.machine.size (ecm + 7)
    then (false, q)
    else if is_found (find ace q.real_ecm)
    then (false, q)
    else if not (wait == 0) && not (wait == 1)
    then (false, placed)
    else later

unfoldable pub reset : ElementQueue → ElementQueue
reset q = record q { allocated = []; real_ecm = []; multiple_wait = [] }

unfoldable pub after_allocated : List ℕ → Bool × ElementQueue → Bool × ElementQueue
after_allocated records (false, q) = (false, q)
after_allocated records (true, q) =
    if not (length records % 3 == 0) then (false, q) else restore_records records q

unfoldable pub restore_checkpoint : ElementCheckpoint → ElementQueue → Bool × ElementQueue
restore_checkpoint c q =
    after_allocated c.real_ecm_records (restore_allocated c.allocated (reset q))

-- So many zero bytes from an address.
unfoldable pub clear_bytes : ℕ → ℕ → Machine → Machine
clear_bytes zero at m = m
clear_bytes (suc n) at m = clear_bytes n (at + 1) (write_byte m at 0)

-- An element at `a` is recorded, unless its allocation is the recorded one.
unfoldable pub record_element : ℕ → ElementQueue → ℕ × ElementQueue
record_element a q =
    let allocation = live_allocation_at q.heap a 32 in
    if has_size allocation (find a q.allocated) then (0, q) else (
      a,
      record q {
        allocated = put a allocation q.allocated;
        real_ecm = erase a q.real_ecm;
        multiple_wait = erase a q.multiple_wait;
      },
    )

-- `owner` is the text that the allocator gives.
unfoldable pub allocate_element : (owner : List ℕ) → ElementQueue → ℕ × ElementQueue
allocate_element owner q =
    let (a, heap, m) = allocate (pos 32) owner q.heap q.machine in
    let q' = record q { heap = heap; machine = m } in
    if a == 0 then (0, q') else record_element a (record q' { machine = clear_bytes 32 a m })

-- The pool's part of `release`: only the recorded allocation is freed.
unfoldable pub release_allocation : (ace : ℕ) → Option ℕ → ElementQueue → ElementQueue
release_allocation ace none q = q
release_allocation ace (some allocation) q =
    let dropped = record q {
      allocated = erase ace q.allocated;
      real_ecm = erase ace q.real_ecm;
      multiple_wait = erase ace q.multiple_wait;
    } in
    if not (live_allocation_at q.heap ace 32 == allocation)
    then dropped
    else record dropped { heap = free ace 32 q.heap }

unfoldable pub release : ℕ → ElementQueue → ElementQueue
release ace q = if ace == 0 then q else release_allocation ace (find ace q.allocated) q

-- Where the mask is, if it can be addressed.
unfoldable pub resolve_ecm : Machine → ℕ → Option ℕ
resolve_ecm m field =
    let resolved = resolve_guest24 m field false in if field == 0 then some 0 else resolved

unfoldable pub remember_resolved : (ace : ℕ) → Option ℕ → ElementQueue → Bool × ElementQueue
remember_resolved ace none q = (false, q)
remember_resolved ace (some ecm) q =
    let (flags, m) = read_byte q.machine (ecm + 5) in
    let kept = record q { real_ecm = put ace ecm q.real_ecm } in
    if not (ecm == 0) && ltb q.machine.size (ecm + 7)
    then (false, q)
    else if ecm == 0
    then (true, record kept { multiple_wait = put ace 0 q.multiple_wait })
    else (
      true,
      record kept {
        machine = m;
        multiple_wait = put ace (bool_number (has flags 0x80)) q.multiple_wait;
      },
    )

unfoldable pub remember_ecm : (ace field : ℕ) → ElementQueue → Bool × ElementQueue
remember_ecm ace field q =
    if not (is_found (find ace q.allocated))
    then (false, q)
    else remember_resolved ace (resolve_ecm q.machine field) q

-- The address in the element itself, where none is retained.
unfoldable pub unretained : ℕ → ElementQueue → Option ℕ × ElementQueue
unretained ace q =
    let (field, m) = read_addr24 q.machine (ace + 13) in
    let q' = record q { machine = m } in
    if not (bit_and field 0x800000 == 0) || ltb q.machine.size (field + 7)
    then (none, q')
    else (some field, q')

unfoldable pub retained : ℕ → Option ℕ → ElementQueue → Option ℕ × ElementQueue
retained ace (some ecm) q = (some ecm, q)
retained ace none q = unretained ace q

unfoldable pub ecm_address : ℕ → ElementQueue → Option ℕ × ElementQueue
ecm_address ace q = retained ace (find ace q.real_ecm) q

unfoldable pub ecm_multiple_wait_eligible : ℕ → ElementQueue → Bool
ecm_multiple_wait_eligible ace q = is_set (find ace q.multiple_wait)

-- Q bit 2: the address goes to the mask and to XR2; without a mask the element is given up.
unfoldable pub hand_back : (rb ace number : ℕ) → Option ℕ × ElementQueue → ℕ × ElementQueue
hand_back rb ace number (none, q) = (0, release ace q)
hand_back rb ace number (some ecm, q) =
    let m = write_xr2 (write_addr24 q.machine (ecm + 2) ace) rb ace in
    if ecm == 0 then (0, release ace q) else (ace, record q { machine = enqueue m number ace })

-- `buildAndQueue` from the remembered mask on.
unfoldable pub finish_build : (rb ace q_byte number : ℕ) → Bool × ElementQueue → ℕ × ElementQueue
finish_build rb ace q_byte number (false, q) = (0, release ace q)
finish_build rb ace q_byte number (true, q) =
    let associated = apply_task_association q.machine ace q_byte in
    let (type_code, read) = read_wr associated rb 6 in
    let m = if has q_byte 0x04 then write_half read (ace + 22) type_code else associated in
    let q' = record q { machine = m } in
    if has q_byte 0x20
    then hand_back rb ace number (ecm_address ace q')
    else (ace, record q' { machine = enqueue m number ace })

unfoldable pub build_and_queue :
    (owner : List ℕ) (rb tb q_byte number : ℕ) → ElementQueue → ℕ × ElementQueue
build_and_queue owner rb tb q_byte number q =
    let (ace, q1) = allocate_element owner q in
    let (field, m) = read_xr1_field (build q1.machine ace rb tb q_byte) rb in
    if ace == 0
    then (0, q1)
    else finish_build rb ace q_byte number (remember_ecm ace field (record q1 { machine = m }))

unfoldable pub post_found : (code : ℕ) → Option ℕ × ElementQueue → Bool × ElementQueue
post_found code (none, q) = (false, q)
post_found code (some ecm, q) =
    if ecm == 0 then (true, q) else (true, record q { machine = post q.machine ecm code })

unfoldable pub post_element : (ace code : ℕ) → ElementQueue → Bool × ElementQueue
post_element ace code q = post_found code (ecm_address ace q)
