-- ===== src/Machine/State/Ints.antt =====
-- The accesses of src/Machine/MachineState.cpp for an address that may be negative, which `inRange`
-- refuses.
use sim.Base.{ℕ, Option, none, List, length}
use sim.Base.Int.{ℤ, pos, negsuc}
use sim.Machine.State.{
  Machine, fault, write, read, read_byte, write_byte, read_half, write_half, read_addr24,
  write_addr24,
}

unfoldable pub write_at : Machine → ℤ → List ℕ → Machine
unfolding fault
write_at m (pos a) src = write m a src
write_at m (negsuc a) src = fault m (negsuc a) (length src)

unfoldable pub read_at : Machine → ℤ → ℕ → Option (List ℕ) × Machine
unfolding fault
read_at m (pos a) len = read m a len
read_at m (negsuc a) len = (none, fault m (negsuc a) len)

unfoldable pub read_byte_at : Machine → ℤ → ℕ × Machine
unfolding fault
read_byte_at m (pos a) = read_byte m a
read_byte_at m (negsuc a) = (0, fault m (negsuc a) 1)

unfoldable pub write_byte_at : Machine → ℤ → ℕ → Machine
unfolding fault
write_byte_at m (pos a) v = write_byte m a v
write_byte_at m (negsuc a) v = fault m (negsuc a) 1

unfoldable pub read_half_at : Machine → ℤ → ℕ × Machine
unfolding fault
read_half_at m (pos a) = read_half m a
read_half_at m (negsuc a) = (0, fault m (negsuc a) 2)

unfoldable pub write_half_at : Machine → ℤ → ℕ → Machine
unfolding fault
write_half_at m (pos a) v = write_half m a v
write_half_at m (negsuc a) v = fault m (negsuc a) 2

unfoldable pub read_addr24_at : Machine → ℤ → ℕ × Machine
unfolding fault
read_addr24_at m (pos a) = read_addr24 m a
read_addr24_at m (negsuc a) = (0, fault m (negsuc a) 3)

unfoldable pub write_addr24_at : Machine → ℤ → ℕ → Machine
unfolding fault
write_addr24_at m (pos a) v = write_addr24 m a v
write_addr24_at m (negsuc a) v = fault m (negsuc a) 3
