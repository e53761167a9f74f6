-- ===== src/Control/Elements/Post.antt =====
-- Posting through an event control mask.
use sim.Base.{ℕ, ◌+◌, ◌≤◌, ◌<◌, ◌≡◌, refl, bit_and, bit_or, true, ◌&&◌, arith, ◌==◌, List, [], ◌∷◌}
use sim.Base.Table.{all_below, all_below_sound}
use sim.Machine.Registers.{has}
use sim.Machine.State.{Machine, poke, copy_in, read_addr24}
use sim.Machine.State.Access.{
  read_byte_ok, write_byte_ok, write_addr24_ok, copy_in-outside, big_endian,
}
use sim.Control.Elements.{is_complete, post}

completion_table :
    all_below 256 (λ c.
      has (bit_or 0x40 (bit_and c 0x0f)) 0x40
      && bit_and (bit_or 0x40 (bit_and c 0x0f)) 0x0f == bit_and c 0x0f)
    ≡ true
unfolding all_below has
completion_table = refl

-- Posting an event control mask that lies in main storage makes it complete, with the low four bits
-- of the completion code in its seventh byte, and clears the address of its action control element.
post-is_complete :
    (m : Machine) (ecm code : ℕ)
    → ecm + 7 ≤ m.size
    → code < 256
    → ((is_complete (post m ecm code) ecm).0 ≡ true)
      × (bit_and ((post m ecm code).storage (ecm + 6)) 0x0f ≡ bit_and code 0x0f)
      × ((read_addr24 (post m ecm code) (ecm + 2)).0 ≡ 0)
unfolding post is_complete
post-is_complete m ecm code h hc =
    let t = all_below_sound 256 _ code completion_table hc in
    let v = bit_or 0x40 (bit_and code 0x0f) in
    let f = poke m.storage (ecm + 6) v in
    let m1 : Machine = record m { storage = f } in
    let link : List ℕ = 0 ∷ 0 ∷ 0 ∷ [] in
    let g = copy_in f (ecm + 2) link in
    let m2 : Machine = record m { storage = g } in
    let at6 : g (ecm + 6) ≡ v = ground (arith, copy_in-outside f (ecm + 2) link (ecm + 6)) in
    let whole = big_endian m1 (ecm + 2) 0 0 (omega arith) (omega arith) (omega arith) in
    let zero_link : (read_addr24 m2 (ecm + 2)).0 ≡ 0 =
      rw (write_addr24_ok m1 (ecm + 2) 0 (omega arith)) at whole.2 in
    rw
      (
        write_byte_ok m (ecm + 6) v (omega arith),
        write_addr24_ok m1 (ecm + 2) 0 (omega arith),
        read_byte_ok m2 (ecm + 6) (omega arith),
      )
      (ground (arith, at6, t), ground (arith, at6, t), zero_link)
