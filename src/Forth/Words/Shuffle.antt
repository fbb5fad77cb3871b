-- ===== src/Forth/Words/Shuffle.antt =====
-- The words of forth/forth_words.c that move items on the data stack.
use common_lib.Prelude.{ℕ, zero, suc, ◌+◌, ◌==◌, if◌then◌else◌, add32, lt_signed}
use common_lib.Forth.Prog.{
  Word, ◌>>=◌, ◌>>◌, done, pop, push, peek, poke, drop, depth, clear, guard_one, guard_items,
  guard_int,
}

unfoldable pub drop_word : Word
unfolding guard_one
drop_word = do guard_one; drop 1

unfoldable pub dup_word : Word
unfolding guard_one
dup_word = do guard_one; v ← peek 0; push v

-- `v = *sp++; v2 = *sp--; *--sp = v2; *--sp = v;`
unfoldable pub dup2_word : Word
unfolding guard_items
dup2_word = do guard_items 2; v ← pop; v2 ← peek 0; push v; push v2; push v

unfoldable pub drop2_word : Word
unfolding guard_items
drop2_word = do guard_items 2; drop 2

unfoldable pub swap_word : Word
unfolding guard_items
swap_word = do guard_items 2; v ← peek 0; w ← peek 1; poke 0 w; poke 1 v

unfoldable pub swap2_word : Word
unfolding guard_items
swap2_word = do
  guard_items 4
  v ← peek 0
  w ← peek 2
  poke 0 w
  poke 2 v
  v' ← peek 1
  w' ← peek 3
  poke 1 w'
  poke 3 v'

unfoldable pub over_word : Word
unfolding guard_items
over_word = do guard_items 2; v ← peek 1; push v

unfoldable pub rot_word : Word
unfolding guard_items
rot_word = do guard_items 3; v3 ← pop; v2 ← pop; v1 ← pop; push v2; push v3; push v1

unfoldable pub mrot_word : Word
unfolding guard_items
mrot_word = do guard_items 3; v3 ← pop; v2 ← pop; v1 ← pop; push v3; push v1; push v2

unfoldable pub nip_word : Word
unfolding guard_items
nip_word = do guard_items 2; v ← pop; poke 0 v

unfoldable pub tuck_word : Word
unfolding guard_items
tuck_word = do guard_items 2; v2 ← pop; v1 ← pop; push v2; push v1; push v2

unfoldable pub dup0_word : Word
unfolding guard_one
dup0_word = do guard_one; v ← peek 0; if v == 0 then done else push v

unfoldable pub pick_word : Word
unfolding guard_one guard_int add32
pick_word = do guard_one; n ← peek 0; guard_int (add32 n 2); x ← peek (add32 n 1); poke 0 x

-- `while (u) { sp[u] = sp[u-1]; u--; }`
unfoldable pub roll_shift : ℕ → Word
roll_shift zero = done
roll_shift (suc u) = do x ← peek u; poke (suc u) x; roll_shift u

unfoldable pub roll_word : Word
unfolding guard_one guard_int roll_shift add32 lt_signed
roll_word = do
  guard_one
  u ← pop
  if lt_signed 0 u then (do guard_int (add32 u 1); xu ← peek u; roll_shift u; poke 0 xu) else done

-- `for (i = 0; i < u; i++) sp[i] = sp[i+1];`, with the rounds left
unfoldable pub mroll_shift : ℕ → ℕ → Word
mroll_shift zero i = done
mroll_shift (suc left) i = do x ← peek (i + 1); poke i x; mroll_shift left (i + 1)

unfoldable pub mroll_word : Word
unfolding guard_one guard_int mroll_shift add32 lt_signed
mroll_word = do
  guard_one
  u ← pop
  if lt_signed 0 u
      then (do guard_int (add32 u 1); x0 ← peek 0; mroll_shift u 0; poke u x0)
      else done

unfoldable pub depth_word : Word
depth_word = do v ← depth; push v

unfoldable pub reset_stack_word : Word
reset_stack_word = clear
