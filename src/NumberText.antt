-- ===== src/NumberText.antt =====
-- itoa.c and ultoa.c. `int` and `unsigned` are bit patterns of 32 bits (Prelude/Word), and so is
-- `unsigned long`; a character is its code.
pub mod Digits
pub mod Laws
mod Tests
use common_lib.Prelude.{
  ℕ, zero, suc, ◌+◌, ◌-◌, ◌/◌, ◌%◌, ◌==◌, ltb, if◌then◌else◌, Bool, not, ◌&&◌, Option, none, some,
  List, [], ◌∷◌, ◌++◌, length, is_neg, neg32,
}

unfoldable pub digit_char : ℕ → ℕ
digit_char i = (if ltb i 10 then i + 48 else i + 65 - 10) % 256

abbrev is_empty : List ℕ → Bool
is_empty tmp = length tmp == 0

-- The loop that both functions have. `tmp` is what lies below `tp`, the newest first, which is the
-- order in which it is copied out; `room` is how much of the array is free. `none` is a write past
-- its end or a division by 0.
unfoldable pub digits : ℕ → ℕ → ℕ → List ℕ → Option (List ℕ)
unfolding digit_char
digits zero v radix tmp = if v == 0 && not (is_empty tmp) then some tmp else none
digits (suc room) v radix tmp =
    let rest = digits room (v / radix) radix (digit_char (v % radix) ∷ tmp) in
    if v == 0 && not (is_empty tmp) then some tmp else if radix == 0 then none else rest

-- the length of `tmp`
abbrev pub tmp_size : ℕ
tmp_size = 33

-- the text with a sign and the 0 at its end
unfoldable pub finish : Bool → Option (List ℕ) → Option (List ℕ)
finish sign none = none
finish sign (some tmp) = some ((if sign then 45 ∷ tmp else tmp) ++ (0 ∷ []))

-- what `string` holds afterwards
unfoldable pub itoa : ℕ → ℕ → Option (List ℕ)
unfolding digits finish
itoa value radix =
    let sign = radix == 10 && is_neg value in
    let v = if sign then neg32 value else value in finish sign (digits tmp_size v radix [])

-- -1 with `string` untouched, or what `string` holds; its length without the 0 is returned
pub data Printed : Type 0 where
  outside : Printed
  too_long : Printed
  printed : List ℕ → Printed

unfoldable pub fit : ℕ → Option (List ℕ) → Printed
fit buffer_length none = outside
fit buffer_length (some tmp) =
    if ltb buffer_length (length tmp + 1) then too_long else printed (tmp ++ (0 ∷ []))

-- `ultoa`, for a `buffer_length` of at least 0
unfoldable pub ultoa : ℕ → ℕ → ℕ → Printed
unfolding digits fit
ultoa v radix buffer_length = fit buffer_length (digits tmp_size v radix [])
