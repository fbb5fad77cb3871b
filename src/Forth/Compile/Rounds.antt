-- ===== src/Forth/Compile/Rounds.antt =====
-- One round of the inner interpreter at each kind of branch.
use native.Mathlib.Nat.{mod-eq_of_lt}
use common_lib.Prelude.{ℕ, ◌+◌, ◌<◌, ◌≡◌, ◌==◌, arith, if◌then◌else◌, Option, some, List, ◌∷◌}
use common_lib.Forth.Machine.{Env, Cell, op, num, Handler, ptr_mod}
use common_lib.Forth.Array.{ok}
use common_lib.Forth.Spec
use common_lib.Forth.Spec.{State}
use common_lib.Forth.Prog.{Word}
use common_lib.Forth.Words.Control.{
  step, if_word, else_word, until_word, repeat_word, again_word, of_word, endof_word,
}
use common_lib.Forth.Words.Table.{round, dispatch, handler}

-- the machine about to run cell `p` of the memory `m`
abbrev pub at : (ℕ → Option Cell) → ℕ → Env → Env
at m p e = record e { mem = m; current_word = p }

-- One round of the inner interpreter takes the items `xs` at `p` to `ys` at `q`.
abbrev pub Goes : (ℕ → Option Cell) → ℕ → List ℕ → ℕ → List ℕ → Type 0
Goes m p xs q ys =
    (foreign_word : ℕ → Word) (callee : Word) (size : ℕ) (e : Env)
    → Spec.run size (round foreign_word callee) xs (at m p e)
      ≡ ok tt (record { items = ys; env = at m q e })

-- The operand `a` of the branch at `p` goes to `q`; the code after the branch is at `r`.
module _ (m : ℕ → Option Cell) (p a q r : ℕ) (operand : m (p + 1) ≡ some (num a))
    (target : a + 1 ≡ q) (after : p + 2 ≡ r) (in_reach : q < ptr_mod) (fits : r < ptr_mod) where
  pub branch_if-Goes :
      (v : ℕ) (xs : List ℕ)
      → m p ≡ some (op Handler.branch_if)
      → Goes m p (v ∷ xs) (if v == 0 then q else r) xs
  unfolding round dispatch handler if_word step Spec.run
  branch_if-Goes v xs code f callee size e =
      rw code (ground (arith, mod-eq_of_lt {n = p + 1} {m = ptr_mod}))

  pub until-Goes :
      (v : ℕ) (xs : List ℕ)
      → m p ≡ some (op Handler.until)
      → Goes m p (v ∷ xs) (if v == 0 then q else r) xs
  unfolding round dispatch handler until_word step Spec.run
  until-Goes v xs code f callee size e =
      rw code (ground (arith, mod-eq_of_lt {n = p + 1} {m = ptr_mod}))

  pub of-Goes :
      (v x : ℕ) (xs : List ℕ)
      → m p ≡ some (op Handler.of)
      → Goes m p (v ∷ x ∷ xs) (if v == x then r else q) (x ∷ xs)
  unfolding round dispatch handler of_word step Spec.run
  of-Goes v x xs code f callee size e =
      rw code (ground (arith, mod-eq_of_lt {n = p + 1} {m = ptr_mod}))

  pub else-Goes : (xs : List ℕ) → m p ≡ some (op Handler.branch_else) → Goes m p xs q xs
  unfolding round dispatch handler else_word step Spec.run
  else-Goes xs code f callee size e =
      rw code (ground (arith, mod-eq_of_lt {n = p + 1} {m = ptr_mod}))

  pub repeat-Goes : (xs : List ℕ) → m p ≡ some (op Handler.repeat) → Goes m p xs q xs
  unfolding round dispatch handler repeat_word step Spec.run
  repeat-Goes xs code f callee size e =
      rw code (ground (arith, mod-eq_of_lt {n = p + 1} {m = ptr_mod}))

  pub again-Goes : (xs : List ℕ) → m p ≡ some (op Handler.again) → Goes m p xs q xs
  unfolding round dispatch handler again_word step Spec.run
  again-Goes xs code f callee size e =
      rw code (ground (arith, mod-eq_of_lt {n = p + 1} {m = ptr_mod}))

  pub endof-Goes : (xs : List ℕ) → m p ≡ some (op Handler.endof) → Goes m p xs q xs
  unfolding round dispatch handler endof_word step Spec.run
  endof-Goes xs code f callee size e =
      rw code (ground (arith, mod-eq_of_lt {n = p + 1} {m = ptr_mod}))
