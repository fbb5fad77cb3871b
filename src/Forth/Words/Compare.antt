-- ===== src/Forth/Words/Compare.antt =====
-- The words of forth/forth_words.c that compare.
use common_lib.Prelude.{ℕ, ◌==◌, not, ◌&&◌, flag, lt_signed, le_signed}
use common_lib.Forth.Prog.{Word, ◌>>=◌, ◌>>◌, pop, peek, poke, guard_items}
use common_lib.Forth.Words.Arith.{unary, binary}

-- `0<>`, `0>` and `0<` have no check for an empty stack.
unfoldable pub unguarded : (ℕ → ℕ) → Word
unguarded f = do x ← peek 0; poke 0 (f x)

unfoldable pub eq0_word : Word
unfolding unary
eq0_word = unary (λ x. flag (x == 0))

unfoldable pub ne0_word : Word
unfolding unguarded
ne0_word = unguarded (λ x. flag (not (x == 0)))

unfoldable pub gt0_word : Word
unfolding unguarded lt_signed
gt0_word = unguarded (λ x. flag (lt_signed 0 x))

unfoldable pub lt0_word : Word
unfolding unguarded lt_signed
lt0_word = unguarded (λ x. flag (lt_signed x 0))

unfoldable pub le0_word : Word
unfolding unary le_signed
le0_word = unary (λ x. flag (le_signed x 0))

unfoldable pub ge0_word : Word
unfolding unary le_signed
ge0_word = unary (λ x. flag (le_signed 0 x))

unfoldable pub eq_word : Word
unfolding binary
eq_word = binary (λ x v. flag (x == v))

unfoldable pub ne_word : Word
unfolding binary
ne_word = binary (λ x v. flag (not (x == v)))

unfoldable pub lt_word : Word
unfolding binary lt_signed
lt_word = binary (λ x v. flag (lt_signed x v))

unfoldable pub gt_word : Word
unfolding binary lt_signed
gt_word = binary (λ x v. flag (lt_signed v x))

unfoldable pub le_word : Word
unfolding binary le_signed
le_word = binary (λ x v. flag (le_signed x v))

unfoldable pub ge_word : Word
unfolding binary le_signed
ge_word = binary (λ x v. flag (le_signed v x))

unfoldable pub within_word : Word
unfolding guard_items lt_signed le_signed
within_word = do
  guard_items 3
  high ← pop
  low ← pop
  n1 ← peek 0
  poke 0 (flag (le_signed low n1 && lt_signed n1 high))
