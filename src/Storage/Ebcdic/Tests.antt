-- ===== src/Storage/Ebcdic/Tests.antt =====
-- The theorems on text at concrete inputs.
use sim.Base.{◌≡◌, some, [], ◌∷◌, List, ℕ, arith}
use sim.Storage.Ebcdic.{cp037, to_ascii, from_ascii}
use sim.Storage.Ebcdic.RoundTrip.{from_ascii-to_ascii}

-- A cent sign, which takes two bytes, and a digit.
abbrev price_text : List ℕ
price_text = 0x4a ∷ 0xf5 ∷ []

from_ascii-to_ascii_example : from_ascii (to_ascii price_text cp037) cp037 ≡ some price_text
from_ascii-to_ascii_example = from_ascii-to_ascii price_text cp037 (omega arith, (omega arith, tt))
