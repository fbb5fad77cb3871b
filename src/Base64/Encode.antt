-- ===== src/Base64/Encode.antt =====
-- The characters that base64encode writes.
use common_lib.Prelude.{
  all_below_sound, ℕ, ◌+◌, ◌*◌, ◌/◌, ◌%◌, ◌<◌, ◌≡◌, ◌==◌, ==_iff, refl, ap, arith, Bool, true,
  false, not, ◌&&◌, ◌||◌, Option, none, some, List, [], ◌∷◌, length, leb,
}
use common_lib.Base64.{
  base64_chars_find, sextets, char_at, encode_group, encode_rest, encode_from, base64encode,
}
use common_lib.Base64.Bits

-- the four values of a group, as quotients and remainders
abbrev pub value_one : ℕ → ℕ
value_one a = a / 4

abbrev pub value_two : ℕ → ℕ → ℕ
value_two a b = a % 4 * 16 + b / 16

abbrev pub value_three : ℕ → ℕ → ℕ
value_three b c = b % 16 * 4 + c / 64

abbrev pub value_four : ℕ → ℕ
value_four c = c % 64

pub encode_group-values :
    (a b c : ℕ)
    → a < 256
    → b < 256
    → c < 256
    → encode_group a b c
      ≡ char_at (value_one a)
        ∷ char_at (value_two a b)
        ∷ char_at (value_three b c)
        ∷ char_at (value_four c)
        ∷ []
unfolding encode_group sextets
encode_group-values a b c ha hb hc = rw (
  Bits.high_six a ha,
  Bits.low_two a ha,
  Bits.high_four b hb,
  Bits.low_four b hb,
  Bits.high_two c hc,
  Bits.low_six c hc,
  small_two,
  small_three,
)
  where
    small_two : value_two a b % 256 ≡ value_two a b
    small_two = omega arith

    small_three : value_three b c % 256 ≡ value_three b c
    small_three = omega arith

-- letters and digits of ASCII
abbrev pub is_ascii_alnum : ℕ → Bool
is_ascii_alnum c = (leb 65 c && leb c 90) || (leb 97 c && leb c 122) || (leb 48 c && leb c 57)

abbrev pub is_table_char : ℕ → Bool
is_table_char c = not (c == 61) && (is_ascii_alnum c || c == 43 || c == 47)

pub char_at-is_table : (i : ℕ) → i < 64 → is_table_char (char_at i) ≡ true
unfolding char_at
char_at-is_table i h = all_below_sound 64 (λ i. is_table_char (char_at i)) i refl h

abbrev is_some_of : Option ℕ → ℕ → Bool
is_some_of none i = false
is_some_of (some j) i = j == i

is_some_of-eq : (o : Option ℕ) (i : ℕ) → is_some_of o i ≡ true → o ≡ some i
is_some_of-eq none i h = ground arith
is_some_of-eq (some j) i h = ap some ((==_iff j i).0 h)

-- `base64_chars_find` inverts the table.
pub find-char_at : (i : ℕ) → i < 64 → base64_chars_find (char_at i) ≡ some i
unfolding base64_chars_find char_at
find-char_at i h =
    is_some_of-eq (base64_chars_find (char_at i)) i
      (all_below_sound 64 (λ i. is_some_of (base64_chars_find (char_at i)) i) i refl h)

length-encode_from : (bytes : List ℕ) → length (encode_from bytes []) ≡ (length bytes + 2) / 3 * 4
unfolding encode_from encode_rest encode_group sextets
length-encode_from [] = refl
length-encode_from (a ∷ []) = refl
length-encode_from (a ∷ b ∷ []) = refl
length-encode_from (a ∷ b ∷ c ∷ bytes) = omega (arith, length-encode_from bytes)

-- base64encode writes 4 characters for every 3 bytes that were begun.
pub length-base64encode :
    (bytes : List ℕ) → length (base64encode bytes) ≡ (length bytes + 2) / 3 * 4
unfolding base64encode
length-base64encode bytes = length-encode_from bytes
