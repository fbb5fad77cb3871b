-- ===== src/Base64/Decode.antt =====
-- base64decode on what base64encode writes.
use common_lib.Prelude.{
  all_bytes, ℕ, ◌+◌, ◌*◌, ◌/◌, ◌%◌, ◌<◌, ◌≡◌, ◌==◌, refl, ap, ap₂, arith, Bool, true, not, ◌&&◌,
  some, List, [], ◌∷◌, ◌++◌, ◌∙◌, take,
}
use common_lib.Base64.{
  base64_chars_find, char_at, encode_rest, encode_from, base64encode, bytes_of, decode_group,
  decode_rest, in_front, is_base64, decode_from, base64decode, take_found,
}
use common_lib.Base64.Bits
use common_lib.Base64.Encode.{
  value_one, value_two, value_three, value_four, encode_group-values, is_ascii_alnum,
  char_at-is_table, find-char_at,
}

bytes_of-values :
    (a b c : ℕ)
    → a < 256
    → b < 256
    → c < 256
    → bytes_of (value_one a) (value_two a b) (value_three b c) (value_four c) ≡ a ∷ b ∷ c ∷ []
unfolding bytes_of
bytes_of-values a b c ha hb hc = rw (
  Bits.second_two (value_two a b) (omega arith),
  Bits.low_four (value_two a b) (omega arith),
  Bits.middle_four (value_three b c) (omega arith),
  Bits.low_two (value_three b c) (omega arith),
  first,
  second,
  third,
)
  where
    first : (value_one a * 4 + value_two a b / 16 % 4) % 256 ≡ a
    first = omega arith

    second : (value_two a b % 16 * 16 + value_three b c / 4 % 16) % 256 ≡ b
    second = omega arith

    third : (value_three b c % 4 * 64 + value_four c) % 256 ≡ c
    third = omega arith

pub decode_group-of_found :
    {s t u v : ℕ} (c d e f : ℕ)
    → base64_chars_find c ≡ some s
    → base64_chars_find d ≡ some t
    → base64_chars_find e ≡ some u
    → base64_chars_find f ≡ some v
    → decode_group c d e f ≡ some (bytes_of s t u v)
unfolding decode_group
decode_group-of_found c d e f hs ht hu hv = rw (hs, ht, hu, hv, decode_group)

decode_group-values :
    (a b c : ℕ)
    → a < 256
    → b < 256
    → c < 256
    → decode_group
        (char_at (value_one a))
        (char_at (value_two a b))
        (char_at (value_three b c))
        (char_at (value_four c))
      ≡ some (a ∷ b ∷ c ∷ [])
decode_group-values a b c ha hb hc =
    decode_group-of_found (char_at (value_one a)) (char_at (value_two a b))
      (char_at (value_three b c)) (char_at (value_four c))
      (find-char_at (value_one a) (omega arith)) (find-char_at (value_two a b) (omega arith))
      (find-char_at (value_three b c) (omega arith)) (find-char_at (value_four c) (omega arith))
    ∙ ap some (bytes_of-values a b c ha hb hc)

find-zero : base64_chars_find 0 ≡ some 64
unfolding base64_chars_find
find-zero = refl

rest_two :
    (a : ℕ)
    → a < 256
    → decode_rest (char_at (value_one a) ∷ char_at (value_two a 0) ∷ []) ≡ some (a ∷ [])
unfolding decode_rest
rest_two a ha =
    ap (take_found 1) (
      decode_group-of_found (char_at (value_one a)) (char_at (value_two a 0)) 0 0
        (find-char_at (value_one a) (omega arith)) (find-char_at (value_two a 0) (omega arith))
        find-zero find-zero)
    ∙ (unfold take_found bytes_of in refl)
    ∙ ap (λ l. some (take 1 l)) (bytes_of-values a 0 0 ha (omega arith) (omega arith))

rest_three :
    (a b : ℕ)
    → a < 256
    → b < 256
    → decode_rest (char_at (value_one a) ∷ char_at (value_two a b) ∷ char_at (value_three b 0) ∷ [])
      ≡ some (a ∷ b ∷ [])
unfolding decode_rest
rest_three a b ha hb =
    ap (take_found 2) (
      decode_group-of_found (char_at (value_one a)) (char_at (value_two a b))
        (char_at (value_three b 0)) 0 (find-char_at (value_one a) (omega arith))
        (find-char_at (value_two a b) (omega arith)) (find-char_at (value_three b 0) (omega arith))
        find-zero)
    ∙ (unfold take_found bytes_of in refl)
    ∙ ap (λ l. some (take 2 l)) (bytes_of-values a b 0 ha hb (omega arith))

-- What `isalnum` is documented to do: letters and digits are alphanumeric in every locale.
module _ (isalnum : ℕ → Bool) (alnum : (c : ℕ) → is_ascii_alnum c ≡ true → isalnum c ≡ true) where
  goes_on : (i : ℕ) → i < 64 → (not (char_at i == 61) && is_base64 isalnum (char_at i)) ≡ true
  unfolding is_base64
  goes_on i h = ground (arith, char_at-is_table i h, alnum (char_at i))

  decode_from-group :
      (i j k l : ℕ) (chars : List ℕ)
      → i < 64
      → j < 64
      → k < 64
      → l < 64
      → decode_from isalnum (char_at i ∷ char_at j ∷ char_at k ∷ char_at l ∷ chars) []
        ≡ in_front
            (decode_group (char_at i) (char_at j) (char_at k) (char_at l))
            (decode_from isalnum chars [])
  unfolding decode_from
  decode_from-group i j k l chars hi hj hk hl =
      rw (goes_on i hi, goes_on j hj, goes_on k hk, goes_on l hl)

  decode_from-two :
      (i j : ℕ) (chars : List ℕ)
      → i < 64
      → j < 64
      → decode_from isalnum (char_at i ∷ char_at j ∷ 61 ∷ chars) []
        ≡ decode_rest (char_at i ∷ char_at j ∷ [])
  unfolding decode_from
  decode_from-two i j chars hi hj = rw (goes_on i hi, goes_on j hj)

  decode_from-three :
      (i j k : ℕ) (chars : List ℕ)
      → i < 64
      → j < 64
      → k < 64
      → decode_from isalnum (char_at i ∷ char_at j ∷ char_at k ∷ 61 ∷ chars) []
        ≡ decode_rest (char_at i ∷ char_at j ∷ char_at k ∷ [])
  unfolding decode_from
  decode_from-three i j k chars hi hj hk = rw (goes_on i hi, goes_on j hj, goes_on k hk)

  decode-encode_from :
      (bytes : List ℕ)
      → all_bytes bytes ≡ true
      → decode_from isalnum (encode_from bytes []) [] ≡ some bytes
  unfolding encode_from encode_rest
  decode-encode_from [] h = unfold decode_from decode_rest in refl
  decode-encode_from (a ∷ []) h =
      let ha : a < 256 = ground arith in
      ap (λ g. decode_from isalnum (take 2 g ++ (61 ∷ 61 ∷ [])) [])
        (encode_group-values a 0 0 ha (omega arith) (omega arith))
      ∙ decode_from-two (value_one a) (value_two a 0) (61 ∷ []) (omega arith) (omega arith)
      ∙ rest_two a ha
  decode-encode_from (a ∷ b ∷ []) h =
      let ha : a < 256 = ground arith in
      let hb : b < 256 = ground arith in
      ap (λ g. decode_from isalnum (take 3 g ++ (61 ∷ [])) [])
        (encode_group-values a b 0 ha hb (omega arith))
      ∙ decode_from-three (value_one a) (value_two a b) (value_three b 0) [] (omega arith)
          (omega arith) (omega arith)
      ∙ rest_three a b ha hb
  decode-encode_from (a ∷ b ∷ c ∷ bytes) h =
      let ha : a < 256 = ground arith in
      let hb : b < 256 = ground arith in
      let hc : c < 256 = ground arith in
      let more : all_bytes bytes ≡ true = ground arith in
      ap (λ g. decode_from isalnum (g ++ encode_from bytes []) [])
        (encode_group-values a b c ha hb hc)
      ∙ decode_from-group (value_one a) (value_two a b) (value_three b c) (value_four c)
          (encode_from bytes []) (omega arith) (omega arith) (omega arith) (omega arith)
      ∙ ap₂ in_front (decode_group-values a b c ha hb hc) (decode-encode_from bytes more)
      ∙ (unfold in_front in refl)

  -- base64decode gives back every list of bytes from what base64encode writes for it, if `isalnum`
  -- accepts the letters and digits of ASCII.
  pub base64decode-base64encode :
      (bytes : List ℕ)
      → all_bytes bytes ≡ true
      → base64decode isalnum (base64encode bytes) ≡ some bytes
  unfolding base64decode base64encode
  base64decode-base64encode bytes h = decode-encode_from bytes h
