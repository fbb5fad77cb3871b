-- ===== src/Forth/Words/Table.antt =====
-- Which code each handler's address stands for, and the loops that run compiled code:
-- `fvm_call_handler`, `exec_forth_word` and `exec_forth_word_pipelined` of forth/forth_core.c.
use common_lib.Prelude.{
  ℕ, zero, suc, ◌+◌, ◌%◌, ◌==◌, if◌then◌else◌, Bool, true, false, Option, none, some,
}
use common_lib.Forth.Machine.{Cell, op, num, Handler, ptr_mod, jump}
use common_lib.Forth.Prog.{
  Prog, Word, ◌>>=◌, ◌>>◌, return, done, env, modify, operand_at, faulting, starving,
}
use common_lib.Forth.Words.Arith
use common_lib.Forth.Words.Compare
use common_lib.Forth.Words.Shuffle
use common_lib.Forth.Words.Control
use common_lib.Forth.Words.Control.{step}

-- The handlers that the source has beyond the modelled ones are a parameter.
module _ (foreign_word : ℕ → Word) where
  -- `fvm_call_handler` needs the loop below and is not reached through this table.
  unfoldable pub handler : Handler → Word
  handler Handler.plus = Arith.plus_word
  handler Handler.minus = Arith.minus_word
  handler Handler.mul = Arith.mul_word
  handler Handler.div = Arith.div_word
  handler Handler.modulo = Arith.mod_word
  handler Handler.onep = Arith.onep_word
  handler Handler.ones = Arith.ones_word
  handler Handler.twop = Arith.twop_word
  handler Handler.twos = Arith.twos_word
  handler Handler.twom = Arith.twom_word
  handler Handler.twod = Arith.twod_word
  handler Handler.drop = Shuffle.drop_word
  handler Handler.dup = Shuffle.dup_word
  handler Handler.dup2 = Shuffle.dup2_word
  handler Handler.drop2 = Shuffle.drop2_word
  handler Handler.swap = Shuffle.swap_word
  handler Handler.swap2 = Shuffle.swap2_word
  handler Handler.over = Shuffle.over_word
  handler Handler.rot = Shuffle.rot_word
  handler Handler.mrot = Shuffle.mrot_word
  handler Handler.nip = Shuffle.nip_word
  handler Handler.tuck = Shuffle.tuck_word
  handler Handler.dup0 = Shuffle.dup0_word
  handler Handler.pick = Shuffle.pick_word
  handler Handler.roll = Shuffle.roll_word
  handler Handler.mroll = Shuffle.mroll_word
  handler Handler.depth = Shuffle.depth_word
  handler Handler.eq0 = Compare.eq0_word
  handler Handler.ne0 = Compare.ne0_word
  handler Handler.gt0 = Compare.gt0_word
  handler Handler.lt0 = Compare.lt0_word
  handler Handler.le0 = Compare.le0_word
  handler Handler.ge0 = Compare.ge0_word
  handler Handler.eq = Compare.eq_word
  handler Handler.ne = Compare.ne_word
  handler Handler.lt = Compare.lt_word
  handler Handler.gt = Compare.gt_word
  handler Handler.le = Compare.le_word
  handler Handler.ge = Compare.ge_word
  handler Handler.within = Compare.within_word
  handler Handler.max = Arith.max_word
  handler Handler.min = Arith.min_word
  handler Handler.land = Arith.and_word
  handler Handler.lor = Arith.or_word
  handler Handler.lxor = Arith.xor_word
  handler Handler.invert = Arith.invert_word
  handler Handler.lshift = Arith.lshift_word
  handler Handler.rshift = Arith.rshift_word
  handler Handler.abs = Arith.abs_word
  handler Handler.negate = Arith.negate_word
  handler Handler.branch_if = Control.if_word
  handler Handler.branch_else = Control.else_word
  handler Handler.do_begin = Control.do_word
  handler Handler.do_test = Control.do2_word
  handler Handler.loop = Control.loop_word
  handler Handler.ploop = Control.ploop_word
  handler Handler.leave = Control.leave_word
  handler Handler.repeat = Control.repeat_word
  handler Handler.until = Control.until_word
  handler Handler.again = Control.again_word
  handler Handler.of = Control.of_word
  handler Handler.endof = Control.endof_word
  handler Handler.rangeof = Control.rangeof_word
  handler Handler.loop_i = Control.i_word
  handler Handler.loop_j = Control.j_word
  handler Handler.loop_k = Control.k_word
  handler Handler.unloop = Control.unloop_word
  handler Handler.cr = Control.cr_word
  handler Handler.lf = Control.lf_word
  handler Handler.crlf = Control.crlf_word
  handler Handler.feedback_on = Control.feedback_on_word
  handler Handler.feedback_off = Control.feedback_off_word
  handler Handler.reset = Control.reset_word
  handler Handler.reset_stack = Shuffle.reset_stack_word
  handler Handler.lit = Control.lit_word
  handler Handler.var_set = Control.var_set_word
  handler Handler.ret = Control.ret_word
  handler Handler.call = starving
  handler (Handler.foreign a) = foreign_word a

  -- `fvm_call_handler`, given the loop that runs the callee
  unfoldable pub call_handler : Word → Word
  unfolding operand_at jump
  call_handler callee = do
    e ← env
    let h = (e.current_word + 1) % ptr_mod
    target ← operand_at h
    modify (jump target)
    callee
    modify (jump h)

  -- `(*fvm_current_word)(fvm)`
  unfoldable pub dispatch : Word → Option Cell → Word
  unfolding call_handler handler
  dispatch callee none = faulting
  dispatch callee (some (num v)) = faulting
  dispatch callee (some (op Handler.call)) = call_handler callee
  dispatch callee (some (op h)) = handler h

  -- `(*fvm_current_word)(fvm)` and `fvm_current_word++`
  unfoldable pub round : Word → Word
  unfolding dispatch step
  round callee = do e ← env; dispatch callee (e.mem e.current_word); step

  -- `while (fvm_current_word) { if (!(*fvm_current_word)(fvm)) return FVM_FALSE; fvm_current_word++; }`
  unfoldable pub run_code : ℕ → Word
  unfolding round
  run_code zero = starving
  run_code (suc rounds) = do
    e ← env
    let rest = run_code rounds
    if e.current_word == 0 then done else do round rest; rest

  -- `exec_forth_word_pipelined`: one handler a call. FVM_END is `false`.
  unfoldable pub exec_pipelined : ℕ → ℕ → Bool → Prog Bool
  unfolding run_code jump
  exec_pipelined rounds fw continue = do
    if continue then done else modify (jump fw)
    e ← env
    if e.current_word == 0 then return false else do round (run_code rounds); return true
