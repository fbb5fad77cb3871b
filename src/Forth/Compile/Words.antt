-- ===== src/Forth/Compile/Words.antt =====
-- The compile-time handlers of forth/forth_words.c.
use common_lib.Prelude.{ℕ, ◌+◌, ◌-◌, ◌==◌, if◌then◌else◌, List, [], ◌∷◌}
use Prim.Native.String.{String}
use common_lib.Forth.Machine.{op, num, Handler}
use common_lib.Forth.Compile.Defs.{
  Kind, if_kind, do_kind, begin_kind, while_kind, case_kind, of_kind, endof_kind, Condition,
  answer_false, Handler2, ◌>>=◌, ◌>>◌, reply, compiling, patch, here, skip_cell, emit,
  push_condition, resolve_condition, add_leave, patch_all, take_leaves, add_do_index2, unexpected,
  go, undefined, kind_code, kind_in, cell_in,
}

abbrev pub minus_one : ℕ
minus_one = 0xffff_ffff

module _ (limit : ℕ) where
  -- A branch whose target is not known yet: its handler, an entry of the given kind for the
  -- operand's cell, and that cell left free.
  unfoldable pub open_branch : Handler → Kind → Handler2
  unfolding emit here push_condition skip_cell
  open_branch h k = do emit (op h); p ← here; push_condition limit k p; skip_cell

  unfoldable pub if_word2 : Handler2
  unfolding compiling open_branch
  if_word2 = do compiling; open_branch Handler.branch_if if_kind

  unfoldable pub else_word2 : Handler2
  unfolding compiling resolve_condition here patch open_branch
  else_word2 = do
    compiling
    p ← resolve_condition if_kind "else"
    q ← here
    patch p (num (q + 1))
    open_branch Handler.branch_else if_kind

  unfoldable pub then_word2 : Handler2
  unfolding compiling resolve_condition here patch
  then_word2 = do compiling; p ← resolve_condition if_kind "then"; q ← here; patch p (num (q - 1))

  unfoldable pub do_word2 : Handler2
  unfolding compiling emit here push_condition skip_cell add_do_index2
  do_word2 = do
    compiling
    emit (op Handler.do_begin)
    emit (op Handler.do_test)
    p ← here
    push_condition limit do_kind p
    skip_cell
    add_do_index2 1

  -- `loop_word_handler_`, for `loop` and `+loop`
  unfoldable pub loop_word2_of : Handler → String → Handler2
  unfolding compiling resolve_condition here patch emit take_leaves patch_all skip_cell
      add_do_index2
  loop_word2_of h name = do
    compiling
    p ← resolve_condition do_kind name
    q ← here
    patch p (num (q + 1))
    emit (op h)
    r ← here
    patch r (num (p - 2))
    places ← take_leaves
    patch_all places (num r)
    skip_cell
    add_do_index2 minus_one

  unfoldable pub loop_word2 : Handler2
  unfolding loop_word2_of
  loop_word2 = loop_word2_of Handler.loop "loop"

  unfoldable pub ploop_word2 : Handler2
  unfolding loop_word2_of
  ploop_word2 = loop_word2_of Handler.ploop "+loop"

  unfoldable pub begin_word2 : Handler2
  unfolding compiling here push_condition
  begin_word2 = do compiling; p ← here; push_condition limit begin_kind p

  unfoldable pub while_word2 : Handler2
  unfolding compiling open_branch
  while_word2 = do compiling; open_branch Handler.until while_kind

  unfoldable pub repeat_word2 : Handler2
  unfolding compiling resolve_condition here patch emit
  repeat_word2 = do
    compiling
    p ← resolve_condition while_kind "repeat"
    q ← here
    patch p (num (q + 1))
    b ← resolve_condition begin_kind "repeat"
    emit (op Handler.repeat)
    emit (num (b - 1))

  unfoldable pub until_word2 : Handler2
  unfolding compiling resolve_condition emit
  until_word2 = do
    compiling
    b ← resolve_condition begin_kind "until"
    emit (op Handler.until)
    emit (num (b - 1))

  unfoldable pub again_word2 : Handler2
  unfolding compiling resolve_condition emit
  again_word2 = do
    compiling
    b ← resolve_condition begin_kind "again"
    emit (op Handler.again)
    emit (num (b - 1))

  unfoldable pub leave_word2 : Handler2
  unfolding compiling emit here add_leave skip_cell
  leave_word2 = do compiling; emit (op Handler.leave); p ← here; add_leave p; skip_cell

  unfoldable pub case_word2 : Handler2
  unfolding compiling here push_condition
  case_word2 = do compiling; p ← here; push_condition limit case_kind p

  unfoldable pub of_word2 : Handler2
  unfolding compiling open_branch
  of_word2 = do compiling; open_branch Handler.of of_kind

  unfoldable pub rangeof_word2 : Handler2
  unfolding compiling open_branch
  rangeof_word2 = do compiling; open_branch Handler.rangeof of_kind

  unfoldable pub endof_word2 : Handler2
  unfolding compiling resolve_condition here patch open_branch
  endof_word2 = do
    compiling
    p ← resolve_condition of_kind "endof"
    q ← here
    patch p (num (q + 1))
    open_branch Handler.endof endof_kind

  -- The loop of `endcase` reads the top entry before it checks that there is one.
  unfoldable pub close_ofs : List Condition → Handler2
  unfolding patch unexpected
  close_ofs [] b = undefined
  close_ofs (c ∷ cs) b =
      let rest =
        (patch (cell_in c) (num (b.word_code - 1)) >> close_ofs cs)
          (record b { conditions = cs }) in
      if kind_in c == kind_code endof_kind
      then rest
      else if kind_in c == kind_code case_kind
      then go tt (record b { conditions = cs })
      else (unexpected "endcase" >> reply answer_false) (record b { conditions = cs })

  unfoldable pub endcase_word2 : Handler2
  unfolding compiling close_ofs
  endcase_word2 = do compiling; λ b. close_ofs b.conditions b
