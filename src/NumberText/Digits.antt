-- ===== src/NumberText/Digits.antt =====
-- The digits that the loop of itoa.c and ultoa.c writes.
use common_lib.Prelude.{
  ℕ, zero, suc, ◌+◌, ◌-◌, ◌*◌, ◌/◌, ◌%◌, ◌<◌, ◌≤◌, ◌≡◌, ◌==◌, ltb, if◌then◌else◌, refl, ap, arith,
  not, ◌&&◌, Option, some, List, [], ◌∷◌, length, ◌⊎◌, ◌∙◌, power_two, false,
}
use native.Mathlib.Nat.{mod-lt, mod-add-div', div-lt_iff_lt-mul, mul-le-mul_left}
use common_lib.NumberText.{digit_char, digits}

abbrev pub char_value : ℕ → ℕ
char_value c = if ltb c 58 then c - 48 else c - 55

-- `0` to `9` and `A` to `Z`, of a value below the radix
abbrev pub IsDigit : ℕ → ℕ → Type 0
IsDigit radix c = (((48 ≤ c) × (c ≤ 57)) ⊎ ((65 ≤ c) × (c ≤ 90))) × (char_value c < radix)

abbrev pub AllDigits : ℕ → List ℕ → Type 0
AllDigits radix [] = Unit {0}
AllDigits radix (c ∷ text) = IsDigit radix c × AllDigits radix text

digit_char-IsDigit : (i radix : ℕ) → i < radix → radix ≤ 36 → IsDigit radix (digit_char i)
unfolding digit_char
digit_char-IsDigit i radix h h36 = ground arith

-- the number that digits stand for in a radix, after `acc`
abbrev pub value_of : ℕ → List ℕ → ℕ → ℕ
value_of radix [] acc = acc
value_of radix (c ∷ text) acc = value_of radix text (acc * radix + char_value c)

char_value-digit_char : (i : ℕ) → i < 36 → char_value (digit_char i) ≡ i
unfolding digit_char
char_value-digit_char i h = ground arith

half_step : (n v radix : ℕ) → 2 ≤ radix → v < power_two (suc n) → v / radix < power_two n
half_step n v radix h lt =
    (div-lt_iff_lt-mul (omega arith)).1 (omega (arith, mul-le-mul_left (power_two n) h))

value_of-digit :
    (v radix : ℕ) (tmp : List ℕ)
    → 2 ≤ radix
    → radix ≤ 36
    → value_of radix (digit_char (v % radix) ∷ tmp) (v / radix) ≡ value_of radix tmp v
value_of-digit v radix tmp h2 h36 = ap (value_of radix tmp) same
  where
    small : v % radix < 36
    small = omega (arith, mod-lt v {m = radix} (omega arith))

    same : v / radix * radix + char_value (digit_char (v % radix)) ≡ v
    same = omega (arith, char_value-digit_char (v % radix) small, mod-add-div' v radix)

digits-stop : (room radix : ℕ) (tmp : List ℕ) → 0 < length tmp → digits room 0 radix tmp ≡ some tmp
unfolding digits
digits-stop zero radix tmp h = ground arith
digits-stop (suc room) radix tmp h = ground arith

pub digits-more :
    (room v radix : ℕ) (tmp : List ℕ)
    → (v == 0 && not (length tmp == 0)) ≡ false
    → 2 ≤ radix
    → digits (suc room) v radix tmp ≡ digits room (v / radix) radix (digit_char (v % radix) ∷ tmp)
unfolding digits
digits-more room v radix tmp h h2 =
    let nonzero : (radix == 0) ≡ false = ground arith in rw (h, nonzero)

-- What the loop leaves in `tmp`: at most `bits` more digits, which stand for `v` before what was
-- there.
unfoldable pub Writes : ℕ → ℕ → ℕ → List ℕ → Option (List ℕ) → Type 0
Writes bits v radix tmp o =
    (out : List ℕ) × (o ≡ some out)
    × (value_of radix out 0 ≡ value_of radix tmp v)
    × (length out ≤ bits + length tmp)
    × (0 < length out)
    × (AllDigits radix tmp → AllDigits radix out)

Writes-of_more :
    (bits v radix : ℕ) (tmp : List ℕ) (o p : Option (List ℕ))
    → 2 ≤ radix
    → radix ≤ 36
    → o ≡ p
    → Writes bits (v / radix) radix (digit_char (v % radix) ∷ tmp) p
    → Writes (suc bits) v radix tmp o
unfolding Writes
Writes-of_more bits v radix tmp o p h2 h36 e (out, eq, value, len, some_left, keeps) = (
  out,
  e ∙ eq,
  value ∙ value_of-digit v radix tmp h2 h36,
  omega arith,
  some_left,
  λ d. keeps (digit_char-IsDigit (v % radix) radix (mod-lt v {m = radix} (omega arith)) h36, d),
)

digits-Writes :
    (bits room v radix : ℕ) (tmp : List ℕ)
    → 2 ≤ radix
    → radix ≤ 36
    → bits ≤ room
    → v < power_two bits
    → 0 < length tmp
    → Writes bits v radix tmp (digits room v radix tmp)
digits-Writes zero room zero radix tmp h2 h36 hr hv ht =
    unfold Writes in (tmp, digits-stop room radix tmp ht, refl, omega arith, ht, λ d. d)
digits-Writes zero room (suc v) radix tmp h2 h36 hr hv ht = absurd (omega arith)
digits-Writes (suc bits) zero v radix tmp h2 h36 hr hv ht = absurd (omega arith)
digits-Writes (suc bits) (suc room) zero radix tmp h2 h36 hr hv ht =
    unfold Writes in (tmp, digits-stop (suc room) radix tmp ht, refl, omega arith, ht, λ d. d)
digits-Writes (suc bits) (suc room) (suc v) radix tmp h2 h36 hr hv ht =
    Writes-of_more bits (suc v) radix tmp (digits (suc room) (suc v) radix tmp)
      (digits room (suc v / radix) radix (digit_char (suc v % radix) ∷ tmp)) h2 h36
      (digits-more room (suc v) radix tmp (ground arith) h2)
      (digits-Writes bits room (suc v / radix) radix (digit_char (suc v % radix) ∷ tmp) h2 h36
        (omega arith) (half_step bits (suc v) radix h2 hv) (omega arith))

pub digits-Writes_all :
    (v radix : ℕ)
    → 2 ≤ radix
    → radix ≤ 36
    → v < power_two 32
    → Writes 32 v radix [] (digits 33 v radix [])
digits-Writes_all v radix h2 h36 hv =
    Writes-of_more 31 v radix [] (digits 33 v radix [])
      (digits 32 (v / radix) radix (digit_char (v % radix) ∷ [])) h2 h36
      (digits-more 32 v radix [] (ground arith) h2)
      (digits-Writes 31 32 (v / radix) radix (digit_char (v % radix) ∷ []) h2 h36 (omega arith)
        (half_step 31 v radix h2 hv) (omega arith))
