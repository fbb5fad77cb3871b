-- ===== src/Forth/Words/Underflow.antt =====
-- Words that find too few items on the data stack.
use common_lib.Prelude.{ℕ, ◌<◌, ◌≡◌, arith, if◌then◌else◌, List, length}
use common_lib.Forth.Machine.{Env, Handler}
use common_lib.Forth.Spec
use common_lib.Forth.Spec.{underflows}
use common_lib.Forth.Array.{fault}
use common_lib.Forth.Prog.{Word}
use common_lib.Forth.Words.Faults.{is_unguarded}
use common_lib.Forth.Words.Arith.{
  plus_word, minus_word, mul_word, div_word, mod_word, onep_word, ones_word, twop_word, twos_word,
  twom_word, twod_word, and_word, or_word, xor_word, lshift_word, rshift_word, abs_word,
  negate_word, invert_word, max_word, min_word,
}
use common_lib.Forth.Words.Compare.{
  eq0_word, ne0_word, gt0_word, lt0_word, le0_word, ge0_word, eq_word, ne_word, lt_word, gt_word,
  le_word, ge_word, within_word,
}
use common_lib.Forth.Words.Shuffle.{
  drop_word, dup_word, dup2_word, drop2_word, swap_word, swap2_word, over_word, rot_word, mrot_word,
  nip_word, tuck_word, dup0_word, pick_word, roll_word, mroll_word,
}
use common_lib.Forth.Words.Control.{
  if_word, until_word, do_word, ploop_word, of_word, rangeof_word, var_set_word,
}
use common_lib.Forth.Words.Table.{handler}

-- The number of items that a word takes from the stack, by its stack comment; for `pick`, `roll` and
-- `-roll` that is the count, besides which they reach as many items as it says. 0 for the words that
-- take none, and for the handlers that are not modelled.
unfoldable pub arity : Handler → ℕ
arity Handler.onep = 1
arity Handler.ones = 1
arity Handler.twop = 1
arity Handler.twos = 1
arity Handler.twom = 1
arity Handler.twod = 1
arity Handler.drop = 1
arity Handler.dup = 1
arity Handler.dup0 = 1
arity Handler.pick = 1
arity Handler.roll = 1
arity Handler.mroll = 1
arity Handler.eq0 = 1
arity Handler.ne0 = 1
arity Handler.gt0 = 1
arity Handler.lt0 = 1
arity Handler.le0 = 1
arity Handler.ge0 = 1
arity Handler.invert = 1
arity Handler.abs = 1
arity Handler.negate = 1
arity Handler.branch_if = 1
arity Handler.ploop = 1
arity Handler.until = 1
arity Handler.var_set = 1
arity Handler.plus = 2
arity Handler.minus = 2
arity Handler.mul = 2
arity Handler.div = 2
arity Handler.modulo = 2
arity Handler.dup2 = 2
arity Handler.drop2 = 2
arity Handler.swap = 2
arity Handler.over = 2
arity Handler.nip = 2
arity Handler.tuck = 2
arity Handler.eq = 2
arity Handler.ne = 2
arity Handler.lt = 2
arity Handler.gt = 2
arity Handler.le = 2
arity Handler.ge = 2
arity Handler.max = 2
arity Handler.min = 2
arity Handler.land = 2
arity Handler.lor = 2
arity Handler.lxor = 2
arity Handler.lshift = 2
arity Handler.rshift = 2
arity Handler.do_begin = 2
arity Handler.of = 2
arity Handler.rot = 3
arity Handler.mrot = 3
arity Handler.within = 3
arity Handler.rangeof = 3
arity Handler.swap2 = 4
arity h = 0

-- A word with fewer items than it takes by its stack comment, not counting those that `pick`, `roll`
-- and `-roll` reach by their count, returns FVM_FALSE, prints "Data stack underflow." and leaves the
-- items, the memory and the position in the code as they were. The exceptions are `0<>`, `0>` and `0<`,
-- which have no check and access the cell past the end of the stack array.
pub handler-underflows :
    (foreign_word : ℕ → Word) (size : ℕ) (h : Handler) (xs : List ℕ) (e : Env)
    → length xs < arity h
    → Spec.run size (handler foreign_word h) xs e
      ≡ (if is_unguarded h then fault else underflows xs e)
unfolding handler arity underflows is_unguarded Spec.run ne0_word gt0_word lt0_word plus_word
    minus_word mul_word div_word mod_word onep_word ones_word twop_word twos_word twom_word
    twod_word and_word or_word xor_word lshift_word rshift_word abs_word negate_word invert_word
    max_word min_word eq0_word le0_word ge0_word eq_word ne_word lt_word gt_word le_word ge_word
    within_word drop_word dup_word dup2_word drop2_word swap_word swap2_word over_word rot_word
    mrot_word nip_word tuck_word dup0_word pick_word roll_word mroll_word if_word until_word do_word
    ploop_word of_word rangeof_word var_set_word
handler-underflows f size Handler.plus xs e h = ground arith
handler-underflows f size _ xs e h = ground arith
