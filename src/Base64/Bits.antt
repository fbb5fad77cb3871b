-- ===== src/Base64/Bits.antt =====
-- The masks and shifts of base64.c as quotients and remainders, by evaluation at every byte.
use common_lib.Prelude.{equal_below, ℕ, ◌/◌, ◌%◌, ◌<◌, ◌≡◌, refl, bit_and}

module _ (x : ℕ) (h : x < 256) where
  pub high_six : bit_and x 0xfc / 4 ≡ x / 4
  high_six = equal_below 256 (λ x. bit_and x 0xfc / 4) (λ x. x / 4) x refl h

  pub low_two : bit_and x 0x03 ≡ x % 4
  low_two = equal_below 256 (λ x. bit_and x 0x03) (λ x. x % 4) x refl h

  pub high_four : bit_and x 0xf0 / 16 ≡ x / 16
  high_four = equal_below 256 (λ x. bit_and x 0xf0 / 16) (λ x. x / 16) x refl h

  pub low_four : bit_and x 0x0f ≡ x % 16
  low_four = equal_below 256 (λ x. bit_and x 0x0f) (λ x. x % 16) x refl h

  pub high_two : bit_and x 0xc0 / 64 ≡ x / 64
  high_two = equal_below 256 (λ x. bit_and x 0xc0 / 64) (λ x. x / 64) x refl h

  pub low_six : bit_and x 0x3f ≡ x % 64
  low_six = equal_below 256 (λ x. bit_and x 0x3f) (λ x. x % 64) x refl h

  pub second_two : bit_and x 0x30 / 16 ≡ x / 16 % 4
  second_two = equal_below 256 (λ x. bit_and x 0x30 / 16) (λ x. x / 16 % 4) x refl h

  pub middle_four : bit_and x 0x3c / 4 ≡ x / 4 % 16
  middle_four = equal_below 256 (λ x. bit_and x 0x3c / 4) (λ x. x / 4 % 16) x refl h
