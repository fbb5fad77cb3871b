-- ===== src/Forth/Words/Control.antt =====
-- The run-time part of the control words of forth/forth_words.c, and `lit_word_handler` of
-- forth/forth_core.c. A branch sets `fvm_current_word`; the caller then steps it by one.
use common_lib.Prelude.{
  ℕ, ◌+◌, ◌%◌, ◌==◌, if◌then◌else◌, add32, le_signed, ◌&&◌, Bool, true, false, [], ◌∷◌,
}
use common_lib.Forth.Machine.{
  Env, num, interpret, ptr_mod, before_null, next, jump, put_string, write_cell, crlf_text,
}
use common_lib.Forth.Prog.{
  Word, ◌>>=◌, ◌>>◌, done, pop, push, peek, clear, env, modify, guard_one, guard_items, operand_at,
  do_variable, set_do_variable,
}

-- `fvm_current_word = *((fvm_word_handler**)fvm_current_word)`
unfoldable pub jump_here : Word
unfolding operand_at jump
jump_here = do e ← env; a ← operand_at e.current_word; modify (jump a)

-- `fvm_current_word = *((fvm_word_handler**)(fvm_current_word + 1))`: also the handlers of
-- `else`, `repeat`, `endof` and `again`
unfoldable pub jump_next : Word
unfolding operand_at jump
jump_next = do e ← env; a ← operand_at ((e.current_word + 1) % ptr_mod); modify (jump a)

unfoldable pub step : Word
unfolding next
step = modify next

unfoldable pub if_word : Word
unfolding guard_one step jump_here
if_word = do guard_one; step; v ← pop; if v == 0 then jump_here else done

unfoldable pub else_word : Word
unfolding jump_next
else_word = jump_next

unfoldable pub repeat_word : Word
unfolding jump_next
repeat_word = jump_next

unfoldable pub again_word : Word
unfolding jump_next
again_word = jump_next

unfoldable pub endof_word : Word
unfolding jump_next
endof_word = jump_next

unfoldable pub until_word : Word
unfolding guard_one step jump_here
until_word = do guard_one; step; v ← pop; if v == 0 then jump_here else done

-- `fvm_do_index += d`
unfoldable pub add_do_index : ℕ → Env → Env
unfolding add32
add_do_index d e = record e { do_index = add32 e.do_index d }

abbrev pub minus_two : ℕ
minus_two = 0xffff_fffe

unfoldable pub do_word : Word
unfolding guard_items add_do_index set_do_variable add32
do_word = do
  guard_items 2
  modify (add_do_index 2)
  start ← pop
  e ← env
  set_do_variable e.do_index start
  limit ← pop
  set_do_variable (add32 e.do_index 1) limit

unfoldable pub do2_word : Word
unfolding step add_do_index do_variable jump_here add32 le_signed
do2_word = do
  step
  e ← env
  index ← do_variable e.do_index
  limit ← do_variable (add32 e.do_index 1)
  if le_signed limit index then (do modify (add_do_index minus_two); jump_here) else done

unfoldable pub loop_word : Word
unfolding do_variable set_do_variable jump_next add32
loop_word = do
  e ← env
  index ← do_variable e.do_index
  set_do_variable e.do_index (add32 index 1)
  jump_next

unfoldable pub ploop_word : Word
unfolding guard_one do_variable set_do_variable jump_next add32
ploop_word = do
  guard_one
  e ← env
  index ← do_variable e.do_index
  v ← pop
  set_do_variable e.do_index (add32 index v)
  jump_next

unfoldable pub leave_word : Word
unfolding add_do_index jump_next
leave_word = do modify (add_do_index minus_two); jump_next

unfoldable pub of_word : Word
unfolding guard_items step jump_here
of_word = do guard_items 2; v ← pop; step; x ← peek 0; if v == x then done else jump_here

unfoldable pub rangeof_word : Word
unfolding guard_items step jump_here le_signed
rangeof_word = do
  guard_items 3
  v2 ← pop
  v1 ← pop
  n ← peek 0
  step
  if le_signed v1 n && le_signed n v2 then jump_here else done

unfoldable pub i_word : Word
unfolding do_variable
i_word = do v ← do_variable 0; push v

unfoldable pub j_word : Word
unfolding do_variable
j_word = do v ← do_variable 2; push v

unfoldable pub k_word : Word
unfolding do_variable
k_word = do v ← do_variable 4; push v

unfoldable pub unloop_word : Word
unloop_word = done

unfoldable pub lit_word : Word
unfolding step operand_at
lit_word = do step; e ← env; v ← operand_at e.current_word; push v

unfoldable pub var_set_word : Word
unfolding guard_one step operand_at write_cell
var_set_word = do
  guard_one
  step
  e ← env
  a ← operand_at e.current_word
  v ← pop
  modify (write_cell a (num v))

unfoldable pub ret_word : Word
unfolding jump
ret_word = modify (jump before_null)

unfoldable pub cr_word : Word
unfolding put_string
cr_word = modify (put_string (13 ∷ []))

unfoldable pub lf_word : Word
unfolding put_string
lf_word = modify (put_string (10 ∷ []))

unfoldable pub crlf_word : Word
unfolding put_string
crlf_word = modify (put_string crlf_text)

unfoldable pub set_feedback : Bool → Env → Env
set_feedback b e = record e { feedback = b }

unfoldable pub feedback_on_word : Word
unfolding set_feedback
feedback_on_word = modify (set_feedback true)

unfoldable pub feedback_off_word : Word
unfolding set_feedback
feedback_off_word = modify (set_feedback false)

-- `fvm_reinit`
unfoldable pub reinit_env : Env → Env
reinit_env e = record e { last_word = e.last_word_initial; mode = interpret; feedback = true }

unfoldable pub reset_word : Word
unfolding reinit_env
reset_word = do clear; modify reinit_env
