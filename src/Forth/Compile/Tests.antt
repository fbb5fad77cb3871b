-- ===== src/Forth/Compile/Tests.antt =====
-- `if 7 then` and `if 7 else 8 then`, compiled from cell 100 on and run.
use common_lib.Prelude.{ℕ, ◌≡◌, ◌==◌, refl, arith, if◌then◌else◌, true, some, List, [], ◌∷◌}
use common_lib.Forth.Machine.{op, num, Handler, interpret, compile}
use common_lib.Forth.Compile.Defs.{
  Build, Step, Handler2, go, answer, undefined, emit, ◌>>◌, compile_time_word, if_kind, packed,
  unexpected, reply, answer_false, resolve_condition,
}
use common_lib.Forth.Compile.Words.{if_word2, else_word2, then_word2}
use common_lib.Forth.Compile.Rounds.{Goes}
use common_lib.Forth.Compile.Opens.{Appends, resolve_condition-packed_high}
use common_lib.Forth.Compile.Targets.{if_else_then_targets}

abbrev compiling_at : ℕ → Build
compiling_at p = record {
  env = record {
    current_word = 0;
    mem = λ a. some (num 0);
    do_index = 0xffff_fffe;
    do_variables = 0 ∷ 0 ∷ 0 ∷ 0 ∷ 0 ∷ 0 ∷ [];
    mode = compile;
    feedback = true;
    last_word = 0;
    last_word_initial = 0;
    out = [];
  };
  word_code = p;
  conditions = [];
  do_index2 = 0xffff_ffff;
  leave_words = [] ∷ [] ∷ [] ∷ [];
}

abbrev state_of : Step (Unit {0}) → Build
state_of (go a b) = b
state_of (answer r b) = b
state_of undefined = compiling_at 0

abbrev literal : ℕ → Handler2
literal v = emit (op Handler.lit) >> emit (num v)

after_if : Build
unfolding if_word2
after_if = state_of (if_word2 16 (compiling_at 100))

after_seven : Build
unfolding after_if emit
after_seven = state_of (literal 7 after_if)

after_then : Build
unfolding after_seven then_word2
after_then = state_of (then_word2 16 after_seven)

seven-Appends : Appends after_if after_seven
unfolding after_seven
seven-Appends = record { grows = omega arith; below = λ a lt. ground arith; open_branches = refl }

after_else : Build
unfolding after_seven else_word2
after_else = state_of (else_word2 16 after_seven)

after_eight : Build
unfolding after_else emit
after_eight = state_of (literal 8 after_else)

after_end : Build
unfolding after_eight then_word2
after_end = state_of (then_word2 16 after_eight)

eight-Appends : Appends after_else after_eight
unfolding after_eight
eight-Appends = record { grows = omega arith; below = λ a lt. ground arith; open_branches = refl }

if_else_then_targets_example :
    Appends (compiling_at 100) after_end
    × ((v : ℕ) (xs : List ℕ) → Goes after_end.env.mem 100 (v ∷ xs) (if v == 0 then 106 else 102) xs)
    × ((xs : List ℕ) → Goes after_end.env.mem 104 xs 108 xs)
unfolding after_end
if_else_then_targets_example =
    if_else_then_targets 16 (compiling_at 100) after_if after_seven after_else after_eight after_end
      refl seven-Appends refl eight-Appends refl (omega arith) (omega arith)

resolve_condition-packed_high_example :
    resolve_condition if_kind "then"
      (record (compiling_at 100) { conditions = packed if_kind 0x20000000 ∷ [] })
    ≡ (unexpected "then" >> reply answer_false) (compiling_at 100)
resolve_condition-packed_high_example =
    resolve_condition-packed_high if_kind if_kind "then"
      (record (compiling_at 100) { conditions = packed if_kind 0x20000000 ∷ [] }) 0x20000000 []
      (omega arith) (omega arith) refl

-- Outside a definition `if` is refused.
if_interpreted : (b : Build) → b.env.mode ≡ interpret → if_word2 16 b ≡ answer compile_time_word b
unfolding if_word2
if_interpreted b e = rw e
