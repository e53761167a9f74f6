-- ===== src/Control/Translation/Tests.antt =====
-- The pool of translation files at a concrete state: two files, of which the second is free.
use sim.Base.{refl, [], ◌∷◌, arith}
use sim.Control.Translation.{TranslationPool, by_handle, allocate}
use sim.Control.Translation.Files.{IsPool, IsGiven}
use sim.Control.Translation.Owners.{allocate-IsGiven}

abbrev pool0 : TranslationPool
pool0 = record {
  files =
      record { handle = 0; owner = 0x500; atr = 1 ∷ 2 ∷ [] }
      ∷ record { handle = 312; owner = 0; atr = 3 ∷ 4 ∷ [] }
      ∷ [];
  free_list = 312 ∷ [];
}

pool0-IsPool : IsPool pool0.files pool0.free_list
unfolding by_handle
pool0-IsPool = record {
  below = (omega arith, (omega arith, tt));
  unowned = (refl, tt);
  distinct = (tt, tt);
}

allocate-IsGiven_example :
    let (handle, after) = allocate 0x600 pool0 in IsGiven 0x600 handle pool0 after
allocate-IsGiven_example = allocate-IsGiven 0x600 pool0 pool0-IsPool
