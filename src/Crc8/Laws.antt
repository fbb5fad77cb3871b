-- ===== src/Crc8/Laws.antt =====
-- What the check value of crc8.c detects.
use common_lib.Prelude.{
  all_bytes, ℕ, zero, suc, ◌+◌, ◌/◌, ◌%◌, ◌<◌, ◌≡◌, ◌≢◌, ◌==◌, refl, ap, ◌∙◌, sym, arith, ltb,
  if◌then◌else◌, true, List, [], ◌∷◌, ◌++◌, bit_xor, bit_xor_cancel, bit_xor_comm, bit_xor_self,
  bit_xor_byte, all_below_sound, equal_below,
}
use common_lib.Crc8.{crc_shift, crc_shifts, crc_from, crc8}

crc_from-append :
    (xs ys : List ℕ) (crc : ℕ) → crc_from (xs ++ ys) crc ≡ crc_from ys (crc_from xs crc)
unfolding crc_from
crc_from-append [] ys crc = refl
crc_from-append (x ∷ xs) ys crc = crc_from-append xs ys (crc_shifts 8 (bit_xor crc x))

-- The check value of a message with its own check value at the end is 0.
crc8-append : (message : List ℕ) → crc8 (message ++ (crc8 message ∷ [])) ≡ 0
unfolding crc8
crc8-append message =
    crc_from-append message (crc_from message 0xff ∷ []) 0xff
    ∙ (unfold crc_from in ap (crc_shifts 8) (bit_xor_self (crc_from message 0xff)))
    ∙ (unfold crc_shifts in refl)

-- one round back: the polynomial is odd, so the lowest bit says whether it was added
abbrev crc_unshift : ℕ → ℕ
crc_unshift crc = if crc % 2 == 0 then crc / 2 else bit_xor crc 0x31 / 2 + 128

crc_shift-inverse : (crc : ℕ) → crc < 256 → crc_unshift (crc_shift crc) ≡ crc
unfolding crc_shift
crc_shift-inverse crc h = equal_below 256 (λ x. crc_unshift (crc_shift x)) (λ x. x) crc refl h

crc_shift_lt : (crc : ℕ) → crc < 256 → crc_shift crc < 256
unfolding crc_shift
crc_shift_lt crc h = ground (arith, all_below_sound 256 (λ x. ltb (crc_shift x) 256) crc refl h)

crc_shifts_lt : (n crc : ℕ) → crc < 256 → crc_shifts n crc < 256
unfolding crc_shifts
crc_shifts_lt zero crc h = h
crc_shifts_lt (suc n) crc h = crc_shifts_lt n (crc_shift crc) (crc_shift_lt crc h)

crc_shifts-injective : (n a b : ℕ) → a < 256 → b < 256 → crc_shifts n a ≡ crc_shifts n b → a ≡ b
unfolding crc_shifts
crc_shifts-injective zero a b ha hb e = e
crc_shifts-injective (suc n) a b ha hb e =
    sym (crc_shift-inverse a ha)
    ∙ ap crc_unshift (
        crc_shifts-injective n (crc_shift a) (crc_shift b) (crc_shift_lt a ha) (crc_shift_lt b hb)
          e)
    ∙ crc_shift-inverse b hb

crc_from_lt : (xs : List ℕ) (crc : ℕ) → all_bytes xs ≡ true → crc < 256 → crc_from xs crc < 256
unfolding crc_from
crc_from_lt [] crc hx h = h
crc_from_lt (x ∷ xs) crc hx h =
    crc_from_lt xs (crc_shifts 8 (bit_xor crc x)) (ground arith)
      (crc_shifts_lt 8 (bit_xor crc x) (bit_xor_byte crc x h (ground arith)))

crc_from-injective :
    (xs : List ℕ) (a b : ℕ)
    → all_bytes xs ≡ true
    → a < 256
    → b < 256
    → crc_from xs a ≡ crc_from xs b
    → a ≡ b
unfolding crc_from
crc_from-injective [] a b hx ha hb e = e
crc_from-injective (x ∷ xs) a b hx ha hb e =
    let hxa : bit_xor a x < 256 = bit_xor_byte a x ha (ground arith) in
    let hxb : bit_xor b x < 256 = bit_xor_byte b x hb (ground arith) in
    let same : bit_xor a x ≡ bit_xor b x =
      crc_shifts-injective 8 (bit_xor a x) (bit_xor b x) hxa hxb (
        crc_from-injective xs (crc_shifts 8 (bit_xor a x)) (crc_shifts 8 (bit_xor b x))
          (ground arith) (crc_shifts_lt 8 (bit_xor a x) hxa) (crc_shifts_lt 8 (bit_xor b x) hxb)
          e) in
    sym (bit_xor_cancel a x) ∙ ap (λ y. bit_xor y x) same ∙ bit_xor_cancel b x

crc_step-injective :
    (crc b c : ℕ)
    → crc < 256
    → b < 256
    → c < 256
    → crc_shifts 8 (bit_xor crc b) ≡ crc_shifts 8 (bit_xor crc c)
    → b ≡ c
crc_step-injective crc b c h hb hc e =
    sym (bit_xor_cancel b crc)
    ∙ ap (λ y. bit_xor y crc) (bit_xor_comm b crc ∙ same ∙ bit_xor_comm crc c)
    ∙ bit_xor_cancel c crc
  where
    same : bit_xor crc b ≡ bit_xor crc c
    same =
        crc_shifts-injective 8 (bit_xor crc b) (bit_xor crc c) (bit_xor_byte crc b h hb)
          (bit_xor_byte crc c h hc) e

-- A message in which one byte was changed has another check value.
pub crc8_detects :
    (before after : List ℕ) (b c : ℕ)
    → all_bytes before ≡ true
    → all_bytes after ≡ true
    → b < 256
    → c < 256
    → b ≢ c
    → crc8 (before ++ (b ∷ after)) ≢ crc8 (before ++ (c ∷ after))
unfolding crc8
crc8_detects before after b c hx hy hb hc ne e = ne (
    crc_step-injective start b c start_lt hb hc (
      crc_from-injective after (crc_shifts 8 (bit_xor start b)) (crc_shifts 8 (bit_xor start c)) hy
        (crc_shifts_lt 8 (bit_xor start b) (bit_xor_byte start b start_lt hb))
        (crc_shifts_lt 8 (bit_xor start c) (bit_xor_byte start c start_lt hc)) after_start))
  where
    start : ℕ
    start = crc_from before 0xff

    start_lt : start < 256
    start_lt = crc_from_lt before 0xff hx (omega arith)

    after_start :
        crc_from after (crc_shifts 8 (bit_xor start b))
        ≡ crc_from after (crc_shifts 8 (bit_xor start c))
    after_start =
        sym (crc_from-append before (b ∷ after) 0xff) ∙ e ∙ crc_from-append before (c ∷ after) 0xff
