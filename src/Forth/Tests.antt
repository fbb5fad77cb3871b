-- ===== src/Forth/Tests.antt =====
-- Runs of the Forth machine, and its theorems at concrete states.
use common_lib.Prelude.{ℕ, ◌≡◌, refl, arith, true, none, some, [], ◌∷◌, div_overflows}
use common_lib.Prelude.Int.{◌-ℤ◌}
use common_lib.Forth.Machine.{Env, Handler, interpret}
use common_lib.Forth.Prog.{Word, faulting}
use common_lib.Forth.Array
use common_lib.Forth.Array.{Fvm, Res, ok, failed, fault}
use common_lib.Forth.Spec
use common_lib.Forth.Spec.{underflows}
use common_lib.Forth.Words.Shuffle.{rot_word}
use common_lib.Forth.Words.Table.{handler}
use common_lib.Forth.Words.Effects.{handler_draws, picture, is_shuffle, drawn}
use common_lib.Forth.Words.Faults.{is_unguarded}
use common_lib.Forth.Words.Underflow.{handler-underflows, arity}
use common_lib.Forth.Words.Values.{handler_computes, operation}
use common_lib.Forth.Words.Division.{handler-Divides, Divides}
use common_lib.Forth.Words.Roll.{roll-Leaves}

abbrev no_foreign : ℕ → Word
no_foreign a = faulting

abbrev start : Env
start = record {
  current_word = 0;
  mem = λ a. none;
  do_index = 0xffff_fffe;
  do_variables = 0 ∷ 0 ∷ 0 ∷ 0 ∷ 0 ∷ 0 ∷ [];
  mode = interpret;
  feedback = true;
  last_word = 0;
  last_word_initial = 0;
  out = [];
}

-- three items in an array of five
abbrev machine : Fvm
machine = record { cells = 0 ∷ 0 ∷ 3 ∷ 2 ∷ 1 ∷ []; sp = 2; env = start }

rot_runs :
    Array.run rot_word machine
    ≡ ok tt (record { cells = 0 ∷ 0 ∷ 1 ∷ 3 ∷ 2 ∷ []; sp = 2; env = start })
unfolding Array.run rot_word
rot_runs = refl

handler_draws_example :
    Spec.run 5 (handler no_foreign Handler.rot) (3 ∷ 2 ∷ 1 ∷ []) start
    ≡ drawn (some (1 ∷ 3 ∷ 2 ∷ [])) (3 ∷ 2 ∷ 1 ∷ []) start
unfolding picture is_shuffle
handler_draws_example =
    handler_draws no_foreign 5 Handler.rot (3 ∷ 2 ∷ 1 ∷ []) start refl (omega arith)

handler-underflows_example :
    Spec.run 5 (handler no_foreign Handler.plus) (3 ∷ []) start ≡ underflows (3 ∷ []) start
unfolding arity is_unguarded
handler-underflows_example =
    handler-underflows no_foreign 5 Handler.plus (3 ∷ []) start (omega arith)

handler_computes_example :
    Spec.run 5 (handler no_foreign Handler.minus) (3 ∷ 1 ∷ []) start
    ≡ ok tt (record { items = 0xffff_fffe ∷ []; env = start })
unfolding operation ◌-ℤ◌
handler_computes_example =
    handler_computes no_foreign 5 [] start Handler.minus 1 3 refl (omega arith) (omega arith)

-- 7 / -2
handler-Divides_example :
    (q r : ℕ) × (Spec.run 5 (handler no_foreign Handler.div) (0xffff_fffe ∷ 7 ∷ []) start
      ≡ ok tt (record { items = q ∷ []; env = start }))
    × (Spec.run 5 (handler no_foreign Handler.modulo) (0xffff_fffe ∷ 7 ∷ []) start
        ≡ ok tt (record { items = r ∷ []; env = start }))
    × Divides 7 0xffff_fffe q r
unfolding div_overflows
handler-Divides_example =
    handler-Divides 7 0xffff_fffe (omega arith) (omega arith) (omega arith) refl no_foreign 5 []
      start

roll-Leaves_example :
    Spec.run 5 (handler no_foreign Handler.roll) (2 ∷ 7 ∷ 8 ∷ 9 ∷ []) start
    ≡ ok tt (record { items = 9 ∷ 7 ∷ 8 ∷ []; env = start })
roll-Leaves_example = roll-Leaves 5 start no_foreign (7 ∷ 8 ∷ []) 9 [] (omega arith)
