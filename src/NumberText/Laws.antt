-- ===== src/NumberText/Laws.antt =====
-- What itoa and ultoa write, read back.
use common_lib.Prelude.{
  ℕ, ◌+◌, ◌<◌, ◌≤◌, ◌≡◌, ◌==◌, ltb, if◌then◌else◌, ap, arith, true, ◌&&◌, some, List, [], ◌∷◌, ◌++◌,
  length, ◌∙◌, word_mod, neg32, is_neg, magnitude,
}
use common_lib.NumberText.{finish, itoa, too_long, printed, fit, ultoa}
use common_lib.NumberText.Digits.{value_of, AllDigits, Writes, digits-Writes_all}

-- In a radix from 2 to 36, ultoa writes the digits of the number, at most 32, with a 0 behind them,
-- inside a buffer of the given length, or it reports that they do not fit and writes nothing.
ultoa_reads :
    (v radix buffer_length : ℕ)
    → 2 ≤ radix
    → radix ≤ 36
    → v < word_mod
    → (text : List ℕ) × (value_of radix text 0 ≡ v)
      × (0 < length text)
      × (length text ≤ 32)
      × (ultoa v radix buffer_length
          ≡ (if ltb buffer_length (length text + 1) then too_long else printed (text ++ (0 ∷ []))))
unfolding ultoa Writes fit
ultoa_reads v radix buffer_length h2 h36 hv =
    let (text, e, value, len, some_digit, keeps) = digits-Writes_all v radix h2 h36 hv in
    (text, value, some_digit, omega arith, ap (fit buffer_length) e)

abbrev pub shown : ℕ → ℕ → ℕ
shown value radix = if radix == 10 && is_neg value then magnitude value else value

magnitude-eq : (value : ℕ) → value < word_mod → is_neg value ≡ true → neg32 value ≡ magnitude value
unfolding neg32 magnitude
magnitude-eq value h neg = ground arith

negated :
    (value radix : ℕ)
    → value < word_mod
    → (if radix == 10 && is_neg value then neg32 value else value) ≡ shown value radix
negated value radix h = ground (arith, magnitude-eq value h)

shown_lt : (value radix : ℕ) → value < word_mod → shown value radix < word_mod
unfolding magnitude
shown_lt value radix h = ground arith

-- In a radix from 2 to 36, itoa writes digits of that radix, `0` to `9` and `A` to `Z`, which stand for
-- the number, at most 32, with a 0 behind them. In
-- radix 10 a negative number is its magnitude behind a minus sign; in another radix it is read as
-- unsigned.
pub itoa_reads :
    (value radix : ℕ)
    → 2 ≤ radix
    → radix ≤ 36
    → value < word_mod
    → (text : List ℕ) × (value_of radix text 0 ≡ shown value radix)
      × AllDigits radix text
      × (0 < length text)
      × (length text ≤ 32)
      × (itoa value radix
          ≡ some ((if radix == 10 && is_neg value then 45 ∷ text else text) ++ (0 ∷ [])))
unfolding itoa Writes finish
itoa_reads value radix h2 h36 hv =
    let same = negated value radix hv in
    let (text, e, meant, len, some_digit, keeps) =
      digits-Writes_all (if radix == 10 && is_neg value then neg32 value else value) radix h2 h36
        (omega (arith, same, shown_lt value radix hv)) in
    (
      text,
      meant ∙ same,
      keeps tt,
      some_digit,
      omega arith,
      ap (finish (radix == 10 && is_neg value)) e,
    )
