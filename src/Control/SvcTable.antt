-- ===== src/Control/SvcTable.antt =====
-- src/Processors/ControlStorage/SvcTable.cpp: which supervisor calls there are, and how each is
-- dispatched. The inline parameters are with the instruction lengths.
pub mod Classes
use sim.Base.{ℕ, Bool, true, false, ◌&&◌, ◌||◌, List, [], ◌∷◌, ltb, leb, ◌==◌, if◌then◌else◌}
use sim.Processor.Step.{DispatchClass, immediate, overlapped, delayed}

unfoldable pub is_one_of : ℕ → List ℕ → Bool
is_one_of r [] = false
is_one_of r (c ∷ cs) = r == c || is_one_of r cs

unfoldable pub is_rejected : ℕ → Bool
unfolding is_one_of
is_rejected r =
    is_one_of r
      (0x15 ∷ 0x16 ∷ 0x1c ∷ 0x1f ∷ 0x27 ∷ 0x28 ∷ 0x29 ∷ 0x2a ∷ 0x47 ∷ 0x49 ∷ 0x4a ∷ 0x4b ∷ [])

unfoldable pub is_implemented : ℕ → Bool
unfolding is_rejected
is_implemented r =
    if is_rejected r
    then false
    else leb r 0x36 || leb 0x40 r && leb r 0x4c || leb 0x50 r && leb r 0x53

unfoldable pub classify : ℕ → DispatchClass
unfolding is_one_of
classify r =
    if is_one_of r (0x09 ∷ 0x0a ∷ 0x0c ∷ 0x0d ∷ 0x0e ∷ 0x1a ∷ 0x1b ∷ 0x22 ∷ [])
    then immediate
    else if leb 0x40 r && leb r 0x52
    then delayed
    else overlapped

unfoldable pub classify_request : ℕ → Bool → DispatchClass
classify_request r disk_cache_hit = if r == 0x51 && disk_cache_hit then immediate else classify r
