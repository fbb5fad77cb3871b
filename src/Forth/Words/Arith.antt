-- ===== src/Forth/Words/Arith.antt =====
-- The arithmetic and bitwise words of forth/forth_words.c.
use Prim.Native.Nat.{◌-◌, bit_and, bit_or, bit_xor}
use common_lib.Prelude.{
  ℕ, ◌==◌, leb, if◌then◌else◌, add32, sub32, mul32, neg32, is_neg, div_overflows, div_signed,
  mod_signed, shl32, asr32, word_mod, lt_signed,
}
use common_lib.Forth.Prog.{
  Word, ◌>>=◌, ◌>>◌, pop, peek, poke, guard_one, guard_items, complain, faulting,
}

-- The common shape: check for two items, take the top one, and combine it into the next.
unfoldable pub binary : (ℕ → ℕ → ℕ) → Word
unfolding guard_items
binary f = do guard_items 2; v ← pop; x ← peek 0; poke 0 (f x v)

-- The same at the top item.
unfoldable pub unary : (ℕ → ℕ) → Word
unfolding guard_one
unary f = do guard_one; x ← peek 0; poke 0 (f x)

unfoldable pub plus_word : Word
unfolding binary add32
plus_word = binary add32

unfoldable pub minus_word : Word
unfolding binary sub32
minus_word = binary sub32

unfoldable pub mul_word : Word
unfolding binary mul32
mul_word = binary mul32

unfoldable pub div_word : Word
unfolding guard_items complain div_overflows div_signed
div_word = do
  guard_items 2
  v ← pop
  if v == 0
      then complain "Division by zero."
      else do x ← peek 0; if div_overflows x v then faulting else poke 0 (div_signed x v)

-- There is no test for a zero divisor here: `% 0` is undefined.
unfoldable pub mod_word : Word
unfolding guard_items div_overflows mod_signed
mod_word = do
  guard_items 2
  v ← pop
  x ← peek 0
  if v == 0 then faulting else if div_overflows x v then faulting else poke 0 (mod_signed x v)

unfoldable pub onep_word : Word
unfolding unary add32
onep_word = unary (λ x. add32 x 1)

unfoldable pub ones_word : Word
unfolding unary sub32
ones_word = unary (λ x. sub32 x 1)

unfoldable pub twop_word : Word
unfolding unary add32
twop_word = unary (λ x. add32 x 2)

-- `-= 1`, as the source has it.
unfoldable pub twos_word : Word
unfolding unary sub32
twos_word = unary (λ x. sub32 x 1)

unfoldable pub twom_word : Word
unfolding unary mul32
twom_word = unary (λ x. mul32 x 2)

unfoldable pub twod_word : Word
unfolding unary div_signed
twod_word = unary (λ x. div_signed x 2)

unfoldable pub and_word : Word
unfolding binary
and_word = binary bit_and

unfoldable pub or_word : Word
unfolding binary
or_word = binary bit_or

unfoldable pub xor_word : Word
unfolding binary
xor_word = binary bit_xor

-- A shift by 32 or more, or by a negative number, is undefined.
unfoldable pub lshift_word : Word
unfolding guard_items shl32
lshift_word = do
  guard_items 2
  v ← pop
  x ← peek 0
  if leb 32 v then faulting else poke 0 (shl32 x v)

unfoldable pub rshift_word : Word
unfolding guard_items asr32
rshift_word = do
  guard_items 2
  v ← pop
  x ← peek 0
  if leb 32 v then faulting else poke 0 (asr32 x v)

unfoldable pub abs_word : Word
unfolding unary neg32
abs_word = unary (λ x. if is_neg x then neg32 x else x)

unfoldable pub negate_word : Word
unfolding unary neg32
negate_word = unary neg32

unfoldable pub invert_word : Word
unfolding unary
invert_word = unary (λ x. word_mod - 1 - x)

unfoldable pub max_word : Word
unfolding guard_items lt_signed
max_word = do guard_items 2; v ← pop; v2 ← peek 0; poke 0 (if lt_signed v2 v then v else v2)

unfoldable pub min_word : Word
unfolding guard_items lt_signed
min_word = do guard_items 2; v ← pop; v2 ← peek 0; poke 0 (if lt_signed v v2 then v else v2)
