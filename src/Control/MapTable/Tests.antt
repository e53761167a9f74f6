-- ===== src/Control/MapTable/Tests.antt =====
-- A map table of two entries at a concrete state: pages 5 and 6 are unmapped.
use sim.Base.{◌≡◌, ◌==◌, if◌then◌else◌, false, arith}
use sim.Machine.Tests.{machine0}
use sim.Machine.State.{Machine}
use sim.Control.MapTable.{unmap}
use sim.Control.MapTable.Kept.{IsUnmapped, unmap-IsUnmapped}

-- The table is at 64; its second entry maps the pages 6 to 9 from page 2 of its object.
abbrev mapped0 : Machine
mapped0 = record machine0 {
  storage = λ a.
      if a == 40
      then 2
      else if a == 64
      then 3
      else if a == 65
      then 2
      else if a == 72
      then 6
      else if a == 73
      then 4
      else if a == 75
      then 2
      else 0;
}

unmap-IsUnmapped_example :
    IsUnmapped mapped0 (unmap mapped0 0 200 5 2 false) 5 2 false 72 7
    × ((unmap mapped0 0 200 5 2 false).storage 79 ≡ 0)
unmap-IsUnmapped_example =
    unmap-IsUnmapped mapped0 0 200 5 2 false 1 (omega arith) (omega arith) 7 2 (omega arith)
      (omega arith) (omega arith) (omega arith, omega arith, omega arith) (omega arith)
