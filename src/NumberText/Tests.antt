-- ===== src/NumberText/Tests.antt =====
-- -42 in two radices.
use common_lib.Prelude.{
  ℕ, ◌≤◌, ◌<◌, ◌≡◌, refl, arith, some, neg32, magnitude, List, [], ◌∷◌, ◌++◌, length,
}
use common_lib.NumberText.{itoa}
use common_lib.NumberText.Digits.{value_of, AllDigits}
use common_lib.NumberText.Laws.{itoa_reads}

-- "-42" and "FFFFFFD6"
decimal_runs : itoa 4294967254 10 ≡ some (45 ∷ 52 ∷ 50 ∷ 0 ∷ [])
unfolding itoa neg32
decimal_runs = refl

hexadecimal_runs : itoa 4294967254 16 ≡ some (70 ∷ 70 ∷ 70 ∷ 70 ∷ 70 ∷ 70 ∷ 68 ∷ 54 ∷ 0 ∷ [])
unfolding itoa
hexadecimal_runs = refl

itoa_reads_example :
    (text : List ℕ) × (value_of 10 text 0 ≡ 42)
    × AllDigits 10 text
    × (0 < length text)
    × (length text ≤ 32)
    × (itoa 4294967254 10 ≡ some ((45 ∷ text) ++ (0 ∷ [])))
unfolding magnitude
itoa_reads_example = itoa_reads 4294967254 10 (omega arith) (omega arith) (omega arith)
