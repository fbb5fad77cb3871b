-- ===== src/Base64.antt =====
-- crypto/base64.c. A character is its code, a buffer is the list of what is in it, and the returned
-- length is the length of the list.
pub mod Bits
pub mod Encode
pub mod Decode
pub mod Total
mod Tests
use common_lib.Prelude.{
  ℕ, zero, suc, ◌+◌, ◌-◌, ◌*◌, ◌/◌, ◌%◌, ◌==◌, leb, ltb, if◌then◌else◌, Bool, true, false, not,
  ◌&&◌, ◌||◌, Option, none, some, List, [], ◌∷◌, ◌++◌, length, get_or, take, replicate, bit_and,
  map,
}

codes_from : ℕ → ℕ → List ℕ
codes_from c zero = []
codes_from c (suc n) = c ∷ codes_from (c + 1) n

-- "A-Za-z0-9+/" with the 0 at its end
unfoldable pub base64_chars : List ℕ
unfolding codes_from
base64_chars = codes_from 65 26 ++ codes_from 97 26 ++ codes_from 48 10 ++ (43 ∷ 47 ∷ 0 ∷ [])

-- The loop of `base64_chars_find`; `none` is a read past the end of the string.
unfoldable pub find_in : List ℕ → ℕ → ℕ → Option ℕ
find_in [] c idx = none
find_in (s ∷ chars) c idx = if s == c then some idx else find_in chars c (idx + 1)

unfoldable pub base64_chars_find : ℕ → Option ℕ
unfolding find_in base64_chars
base64_chars_find c = find_in base64_chars c 0

-- The values of `char_array_4` for the three bytes of `char_array_3`.
unfoldable pub sextets : ℕ → ℕ → ℕ → List ℕ
sextets a b c =
    (bit_and a 0xfc / 4)
    ∷ ((bit_and a 0x03 * 16 + bit_and b 0xf0 / 16) % 256)
    ∷ ((bit_and b 0x0f * 4 + bit_and c 0xc0 / 64) % 256)
    ∷ bit_and c 0x3f
    ∷ []

-- `base64_chars[i]`; `Bits` shows that `i` is below 64.
unfoldable pub char_at : ℕ → ℕ
unfolding base64_chars
char_at i = get_or base64_chars i 0

unfoldable pub encode_group : ℕ → ℕ → ℕ → List ℕ
unfolding sextets char_at
encode_group a b c = map char_at (sextets a b c)

-- What follows the loop of `base64encode`: `held` is `char_array_3[0 .. i)`.
unfoldable pub encode_rest : List ℕ → List ℕ
unfolding encode_group
encode_rest held =
    let i = length held in
    if i == 0
    then []
    else take (i + 1) (encode_group (get_or held 0 0) (get_or held 1 0) (get_or held 2 0))
      ++ replicate (3 - i) 61

unfoldable pub encode_from : List ℕ → List ℕ → List ℕ
unfolding encode_group encode_rest
encode_from [] held = encode_rest held
encode_from (c ∷ bytes) [] = encode_from bytes (c ∷ [])
encode_from (c ∷ bytes) (a ∷ []) = encode_from bytes (a ∷ c ∷ [])
encode_from (c ∷ bytes) (a ∷ b ∷ held) = encode_group a b c ++ encode_from bytes []

unfoldable pub base64encode : List ℕ → List ℕ
unfolding encode_from
base64encode bytes = encode_from bytes []

-- The bytes of `char_array_3` for the values of `char_array_4`.
unfoldable pub bytes_of : ℕ → ℕ → ℕ → ℕ → List ℕ
bytes_of s t u v =
    ((s * 4 + bit_and t 0x30 / 16) % 256)
    ∷ ((bit_and t 0xf * 16 + bit_and u 0x3c / 4) % 256)
    ∷ ((bit_and u 0x3 * 64 + v) % 256)
    ∷ []

-- The values of the characters of `char_array_4`, and its bytes.
unfoldable pub decode_group : ℕ → ℕ → ℕ → ℕ → Option (List ℕ)
unfolding base64_chars_find bytes_of
decode_group c d e f = elim (base64_chars_find c) [
  | none ↦ none
  | some s ↦ elim (base64_chars_find d) [
    | none ↦ none
    | some t ↦ elim (base64_chars_find e) [
      | none ↦ none
      | some u ↦ elim (base64_chars_find f) [ none ↦ none | some v ↦ some (bytes_of s t u v) ]
    ]
  ]
]

-- the first `n` bytes of a group
unfoldable pub take_found : ℕ → Option (List ℕ) → Option (List ℕ)
take_found n none = none
take_found n (some bytes) = some (take n bytes)

-- What follows the loop of `base64decode`, with `held` as `char_array_4[0 .. i)`.
unfoldable pub decode_rest : List ℕ → Option (List ℕ)
unfolding decode_group take_found
decode_rest held =
    let i = length held in
    let found =
      decode_group (get_or held 0 0) (get_or held 1 0) (get_or held 2 0) (get_or held 3 0) in
    if i == 0 then some [] else take_found (i - 1) found

-- the bytes of a group in front of those of what follows it
unfoldable pub in_front : Option (List ℕ) → Option (List ℕ) → Option (List ℕ)
in_front none rest = none
in_front (some bytes) none = none
in_front (some bytes) (some rest) = some (bytes ++ rest)

-- `isalnum` is the C library's.
module _ (isalnum : ℕ → Bool) where
  unfoldable pub is_base64 : ℕ → Bool
  is_base64 c = isalnum c || c == 43 || c == 47

  unfoldable pub decode_from : List ℕ → List ℕ → Option (List ℕ)
  unfolding is_base64 decode_rest in_front
  decode_from [] held = decode_rest held
  decode_from (g ∷ chars) (c ∷ d ∷ e ∷ held) =
      let rest = decode_from chars [] in
      if not (g == 61) && is_base64 g
      then in_front (decode_group c d e g) rest
      else decode_rest (c ∷ d ∷ e ∷ held)
  decode_from (g ∷ chars) held =
      let rest = decode_from chars (held ++ (g ∷ [])) in
      if not (g == 61) && is_base64 g then rest else decode_rest held

  unfoldable pub base64decode : List ℕ → Option (List ℕ)
  unfolding decode_from
  base64decode chars = decode_from chars []
