-- ===== src/Control/BasicNumber/Tests.antt =====
-- The theorems on decimal numbers at concrete inputs.
use sim.Base.{
  zero, suc, ◌+◌, ◌-◌, ◌/◌, ◌≤◌, ◌<◌, ltb, if◌then◌else◌, if-property, subst, sym, refl, ◌≡◌, true,
  some, [], ◌∷◌, inr, arith, List, ℕ,
}
use sim.Control.BasicNumber.{
  power10, add, subtract, multiply, divide, short, BasicNumber, decode, decoded, encode,
}
use sim.Control.BasicNumber.Magnitude.{Spans}
use sim.Control.BasicNumber.Quantize.{IsStored}
use sim.Control.BasicNumber.Arithmetic.{arithmetic-IsStored}
use sim.Control.BasicNumber.Code.{IsCode, decode-encode, encode-decode}

-- -12.5
abbrev number0 : BasicNumber
number0 = record { precision = short; sign = true; exponent = 0x41; digits = 12 ∷ 50 ∷ 0 ∷ 0 ∷ [] }

decode-encode_example : decode short (some (encode number0)) ≡ decoded number0
decode-encode_example = decode-encode number0 (refl, omega arith, refl, inr (omega arith))

abbrev number_bytes : List ℕ
number_bytes = 0xc1 ∷ 12 ∷ 50 ∷ 0 ∷ 0 ∷ []

encode-decode_example : IsCode short number_bytes (decode short (some number_bytes))
encode-decode_example = encode-decode short number_bytes (omega arith)

-- The length of a number's decimal text.
text_loop : (fuel : ℕ) → ℕ → ℕ
text_loop zero n = 1
text_loop (suc fuel) n = let rest = text_loop fuel (n / 10) in if ltb n 10 then 1 else rest + 1

abbrev text_length0 : ℕ → ℕ
text_length0 n = text_loop n n

text_loop-Spans :
    (fuel n : ℕ) → 0 < n → n ≤ fuel → (0 < text_loop fuel n) × Spans n (text_loop fuel n - 1)
unfolding text_loop power10
text_loop-Spans zero n some_n enough = absurd (omega arith)
text_loop-Spans (suc fuel) n some_n enough =
    if-property (λ k. (0 < k) × Spans n (k - 1)) (ltb n 10) _ _
      (λ one. (omega arith, (omega arith, ground arith)))
      (λ more.
        let (some_text, (low, high)) = text_loop-Spans fuel (n / 10) (ground arith) (omega arith) in
        let index : text_loop fuel (n / 10) + 1 - 1 ≡ suc (text_loop fuel (n / 10) - 1) =
          omega arith in
        (omega arith, subst (Spans n) (sym index) (omega arith, omega arith)))

arithmetic-IsStored_example :
    IsStored short (add text_length0 number0 number0).1
    × IsStored short (subtract text_length0 number0 number0).1
    × IsStored short (multiply text_length0 number0 number0).1
    × IsStored short (divide text_length0 number0 number0).1
arithmetic-IsStored_example =
    arithmetic-IsStored text_length0 (λ n some_n. text_loop-Spans n n some_n (omega arith)) number0
      number0
