-- ===== src/Forth/Compile/Defs.antt =====
-- The compiler's state, and the steps that its handlers share.
use common_lib.Prelude.{
  ℕ, ◌+◌, ◌*◌, ◌/◌, ◌%◌, ◌==◌, leb, ltb, if◌then◌else◌, add32, Option, none, some, List, [], ◌∷◌,
  ◌++◌, length, get_elem?, set,
}
use Prim.Native.String.{String}
use common_lib.Forth.Machine.{
  Env, Cell, Mode, interpret, compile, write_cell, put_string, crlf_text,
}
use common_lib.Forth.Prog.{codes}

-- `FVM_IF` to `FVM_ENDOF`
pub data Kind : Type 0 where
  if_kind do_kind begin_kind while_kind case_kind of_kind endof_kind : Kind

abbrev pub kind_code : Kind → ℕ
kind_code if_kind = 0
kind_code do_kind = 1
kind_code begin_kind = 2
kind_code while_kind = 3
kind_code case_kind = 4
kind_code of_kind = 5
kind_code endof_kind = 6

-- an entry of `fvm_conditions_stack`, a 64-bit pattern
abbrev pub Condition : Type 0
Condition = ℕ

-- `((long long int)a << CPU_BITS) | (int)b` for the cell `p`, whose address is 4 * p: the `int` is
-- extended by its sign, which covers the kind when the address is 2 ^ 31 or more.
unfoldable pub packed : Kind → ℕ → Condition
packed k p =
    if leb 0x80000000 (p * 4 % 0x100000000)
    then 0xffffffff00000000 + p * 4 % 0x100000000
    else kind_code k * 0x100000000 + p * 4 % 0x100000000

-- `cond >> CPU_BITS`, which is the code of a kind or negative, and so no code
abbrev pub kind_in : Condition → ℕ
kind_in c = c / 0x100000000

-- the cell of `(fvm_word_handler*)(cond & 0xFFFFFFFF)`
abbrev pub cell_in : Condition → ℕ
cell_in c = c % 0x100000000 / 4

-- What a handler answers: the `int` that it returns.
pub data Answer : Type 0 where
  answer_true answer_false compile_time_word answer_error : Answer

-- `fvm_leave_words` is three rows of at most ten places; a row's length is its `fvm_leave_index`.
-- `fvm_do_index2` counts from -1.
pub record Build : Type 0 where
  pub env : Env
  pub word_code : ℕ
  pub conditions : List Condition
  pub do_index2 : ℕ
  pub leave_words : List (List ℕ)

-- A step goes on with a value, or ends the handler: with its answer, or by an undefined access.
pub data Step (A : Type 0) : Type 0 where
  go : A → Build → Step A
  answer : Answer → Build → Step A
  undefined : Step A

abbrev pub Compiler : Type 0 → Type 0
Compiler A = Build → Step A

module _ {A B : Type 0} where
  abbrev pub and_then : Step A → (A → Compiler B) → Step B
  and_then (go a b) f = f a b
  and_then (answer r b) f = answer r b
  and_then undefined f = undefined

  infixl 5 ◌>>=◌ ◌>>◌
  abbrev pub ◌>>=◌ : Compiler A → (A → Compiler B) → Compiler B
  ◌>>=◌ m f b = and_then (m b) f

  abbrev pub ◌>>◌ : Compiler A → Compiler B → Compiler B
  ◌>>◌ m k b = and_then (m b) (λ _. k)

-- A whole handler.
abbrev pub Handler2 : Type 0
Handler2 = Compiler (Unit {0})

abbrev pub skip : Handler2
skip b = go tt b

abbrev pub reply : {A : Type 0} → Answer → Compiler A
reply r b = answer r b

-- `if (fvm_mode == FVM_MODE_COMPILE) ... else return FVM_COMPILE_TIME_WORD;`
unfoldable pub when_compiling : Mode → Handler2
when_compiling compile = skip
when_compiling interpret = reply compile_time_word

unfoldable pub compiling : Handler2
unfolding when_compiling
compiling b = when_compiling b.env.mode b

-- `*p = c`
unfoldable pub patch : ℕ → Cell → Handler2
unfolding write_cell
patch a c b = go tt (record b { env = write_cell a c b.env })

-- `fvm_word_code`
unfoldable pub here : Compiler ℕ
here b = go b.word_code b

-- `fvm_word_code++`
unfoldable pub skip_cell : Handler2
skip_cell b = go tt (record b { word_code = b.word_code + 1 })

-- `*fvm_word_code++ = c`
unfoldable pub emit : Cell → Handler2
unfolding patch skip_cell
emit c = λ b. (patch b.word_code c >> skip_cell) b

-- `fvm_puts("Unexpected "); fvm_puts(name); fvm_puts(CRLF)`
unfoldable pub unexpected : String → Handler2
unfolding codes put_string
unexpected name b =
    go tt (record b { env = put_string (codes "Unexpected " ++ codes name ++ crlf_text) b.env })

-- The conditions stack holds `FVM_CONDITIONS_STACK_LENGTH` entries, which board.h sets.
module _ (limit : ℕ) where
  unfoldable pub push_condition : Kind → ℕ → Handler2
  unfolding packed
  push_condition k a b =
      if ltb (length b.conditions) limit
      then go tt (record b { conditions = packed k a ∷ b.conditions })
      else undefined

-- `resolve_condition` on the entries: the entry is taken off also when its kind does not fit.
unfoldable pub resolve : List Condition → Kind → String → Compiler ℕ
unfolding unexpected
resolve [] k name b = (unexpected name >> reply answer_false) b
resolve (c ∷ cs) k name b =
    if kind_in c == kind_code k
    then go (cell_in c) (record b { conditions = cs })
    else (unexpected name >> reply answer_false) (record b { conditions = cs })

unfoldable pub resolve_condition : Kind → String → Compiler ℕ
unfolding resolve
resolve_condition k name b = resolve b.conditions k name b

-- `fvm_leave_words[fvm_do_index2][fvm_leave_index[fvm_do_index2]++] = p`
unfoldable pub add_leave_to : Option (List ℕ) → ℕ → Handler2
add_leave_to none p b = undefined
add_leave_to (some row) p b =
    if ltb (length row) 10
    then go tt (record b { leave_words = set b.leave_words b.do_index2 (row ++ (p ∷ [])) })
    else undefined

unfoldable pub add_leave : ℕ → Handler2
unfolding add_leave_to
add_leave p b = add_leave_to (get_elem? b.leave_words b.do_index2) p b

-- `while (idx) *fvm_leave_words[...][--idx] = (fvm_word_handler)fvm_word_code;`: every place of the
-- row is set to the same address, so the order does not show.
unfoldable pub patch_all : List ℕ → Cell → Handler2
unfolding patch
patch_all [] c = skip
patch_all (p ∷ ps) c = patch_all ps c >> patch p c

-- The row of the innermost loop, emptied (`fvm_leave_index[fvm_do_index2] = 0`).
unfoldable pub take_leaves_of : Option (List ℕ) → Compiler (List ℕ)
take_leaves_of none b = undefined
take_leaves_of (some row) b = go row (record b { leave_words = set b.leave_words b.do_index2 [] })

unfoldable pub take_leaves : Compiler (List ℕ)
unfolding take_leaves_of
take_leaves b = take_leaves_of (get_elem? b.leave_words b.do_index2) b

-- `fvm_do_index2 += d`
unfoldable pub add_do_index2 : ℕ → Handler2
unfolding add32
add_do_index2 d b = go tt (record b { do_index2 = add32 b.do_index2 d })
