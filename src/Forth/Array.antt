-- ===== src/Forth/Array.antt =====
-- Handlers on `fvm_data` (forth/forth_core.h): the array `fvm_data_stack`, which fills from its
-- end, and `fvm_data_stack_pointer` as an index into it.
use common_lib.Prelude.{
  ℕ, ◌+◌, ◌-◌, ◌≤◌, ◌==◌, ltb, leb, if◌then◌else◌, Option, none, some, List, get_elem?, length, set,
}
use common_lib.Forth.Machine.{Env}
use common_lib.Forth.Prog.{
  Prog, return, popping, pushing, peeking, poking, dropping, measuring, clearing, reading, writing,
  failing, faulting, starving,
}

pub record Fvm : Type 0 where
  pub cells : List ℕ
  pub sp : ℕ
  pub env : Env

-- What a handler ends with: FVM_TRUE and a value, FVM_FALSE, an undefined access, or
-- a loop cut short.
pub data Res (S A : Type 0) : Type 0 where
  ok : A → S → Res S A
  failed : S → Res S A
  fault : Res S A
  out_of_fuel : Res S A

module _ {S A : Type 0} where
  abbrev pub on_value : Option ℕ → (ℕ → Res S A) → Res S A
  on_value none k = fault
  on_value (some v) k = k v

unfoldable pub run : {A : Type 0} → Prog A → Fvm → Res Fvm A
run (return a) m = ok a m
run (popping k) m = on_value (get_elem? m.cells m.sp) (λ v. run (k v) (record m { sp = m.sp + 1 }))
run (pushing v k) m =
    if m.sp == 0
    then fault
    else run k (record m { cells = set m.cells (m.sp - 1) v; sp = m.sp - 1 })
run (peeking i k) m = on_value (get_elem? m.cells (m.sp + i)) (λ v. run (k v) m)
run (poking i v k) m =
    if ltb (m.sp + i) (length m.cells)
    then run k (record m { cells = set m.cells (m.sp + i) v })
    else fault
run (dropping n k) m =
    if leb (m.sp + n) (length m.cells) then run k (record m { sp = m.sp + n }) else fault
run (measuring k) m = run (k (length m.cells - m.sp)) m
run (clearing k) m = run k (record m { sp = length m.cells })
run (reading k) m = run (k m.env) m
run (writing e k) m = run k (record m { env = e })
run failing m = failed m
run faulting m = fault
run starving m = out_of_fuel

-- `fvm_data_stack_pointer` lies in the array or just past its end.
abbrev pub IsValid : Fvm → Type 0
IsValid m = m.sp ≤ length m.cells
