-- ===== src/Forth/Spec.antt =====
-- The data stack as a client sees it: a list of at most `size` items, the top first.
use common_lib.Prelude.{
  ℕ, ltb, leb, if◌then◌else◌, Option, none, some, List, [], ◌∷◌, ◌++◌, get_elem?, length, set,
}
use common_lib.Prelude
use common_lib.Forth.Machine.{Env, put_string, crlf_text}
use common_lib.Forth.Prog.{
  Prog, return, popping, pushing, peeking, poking, dropping, measuring, clearing, reading, writing,
  failing, faulting, starving, codes,
}
use common_lib.Forth.Array.{Res, ok, failed, fault, out_of_fuel, on_value}

pub record State : Type 0 where
  pub items : List ℕ
  pub env : Env

unfoldable pub run : {A : Type 0} → ℕ → Prog A → List ℕ → Env → Res State A
run size (return a) xs e = ok a (record { items = xs; env = e })
run size (popping k) [] e = fault
run size (popping k) (x ∷ xs) e = run size (k x) xs e
run size (pushing v k) xs e = if ltb (length xs) size then run size k (v ∷ xs) e else fault
run size (peeking i k) xs e = on_value (get_elem? xs i) (λ v. run size (k v) xs e)
run size (poking i v k) xs e = if ltb i (length xs) then run size k (set xs i v) e else fault
run size (dropping n k) xs e = if leb n (length xs) then run size k (Prelude.drop n xs) e else fault
run size (measuring k) xs e = run size (k (length xs)) xs e
run size (clearing k) xs e = run size k [] e
run size (reading k) xs e = run size (k e) xs e
run size (writing e' k) xs e = run size k xs e'
run size failing xs e = failed (record { items = xs; env = e })
run size faulting xs e = fault
run size starving xs e = out_of_fuel

-- `fvm_data_stack_underflow` found too few items.
unfoldable pub underflows : {A : Type 0} → List ℕ → Env → Res State A
unfolding codes put_string
underflows xs e =
    failed (record { items = xs; env = put_string (codes "Data stack underflow." ++ crlf_text) e })
