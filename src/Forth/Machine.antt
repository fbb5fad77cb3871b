-- ===== src/Forth/Machine.antt =====
-- The state of the Forth machine beside its data stack: forth/forth_core.h and the globals of
-- forth/forth_core.c and forth/forth_words.c.
-- A pointer into the dictionary is the number of its cell, modulo 2 ^ 30 (a byte address of a
-- 32-bit target divided by four), and 0 is NULL.
use common_lib.Prelude.{
  ℕ, ◌+◌, ◌-◌, ◌%◌, ◌^◌, ◌==◌, if◌then◌else◌, Bool, Option, some, List, [], ◌∷◌, ◌++◌,
}

-- The handlers that compiled code holds. One that is not modelled is a `foreign` one, with the
-- address that the source has for it.
pub data Handler : Type 0 where
  plus minus mul div modulo onep ones twop twos twom twod : Handler
  drop dup dup2 drop2 swap swap2 over rot mrot nip tuck dup0 pick roll mroll depth : Handler
  eq0 ne0 gt0 lt0 le0 ge0 eq ne lt gt le ge within max min : Handler
  land lor lxor invert lshift rshift abs negate : Handler
  branch_if branch_else do_begin do_test loop ploop leave repeat until again : Handler
  of endof rangeof loop_i loop_j loop_k unloop : Handler
  cr lf crlf feedback_on feedback_off reset reset_stack : Handler
  lit var_set ret call : Handler
  foreign : ℕ → Handler

-- A cell of the dictionary: a handler's address, or an `int` or pointer operand.
pub data Cell : Type 0 where
  op : Handler → Cell
  num : ℕ → Cell

-- `fvm_mode`
pub data Mode : Type 0 where
  interpret compile : Mode

abbrev pub ptr_mod : ℕ
ptr_mod = 2 ^ 30

-- `(fvm_word_handler*)-(CPU_BITS/8)`: the pointer that `++` takes to NULL.
abbrev pub before_null : ℕ
before_null = ptr_mod - 1

pub record Env : Type 0 where
  pub current_word : ℕ
  pub mem : ℕ → Option Cell
  pub do_index : ℕ
  pub do_variables : List ℕ
  pub mode : Mode
  pub feedback : Bool
  pub last_word : ℕ
  pub last_word_initial : ℕ
  -- what went through `fvm_put_string_proc` so far
  pub out : List ℕ

-- `fvm_current_word++`
unfoldable pub next : Env → Env
next e = record e { current_word = (e.current_word + 1) % ptr_mod }

unfoldable pub jump : ℕ → Env → Env
jump a e = record e { current_word = a }

-- `fvm_put_string_proc` on the bytes of a string (`fvm_puts`)
unfoldable pub put_string : List ℕ → Env → Env
put_string s e = record e { out = e.out ++ s }

-- a write to one cell of the memory
unfoldable pub write_cell : ℕ → Cell → Env → Env
write_cell a c e = record e { mem = λ b. if b == a then some c else e.mem b }

abbrev pub crlf_text : List ℕ
crlf_text = 13 ∷ 10 ∷ []
