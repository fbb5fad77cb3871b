-- ===== src/Forth/Words/Roll.antt =====
-- `roll` and `-roll`: their loops, and what they leave on the stack.
use mathlib.Core.List.{reverse, reverse_aux}
use native.Mathlib.Numerals.{add-one}
use common_lib.Prelude.{
  ℕ, suc, ◌+◌, ◌≤◌, ◌<◌, ◌≡◌, refl, ap, ◌∙◌, arith, List, [], ◌∷◌, ◌++◌, length, set, lt→ltb,
  length-append, sign_bit,
}
use common_lib.Forth.Words.Reversed.{
  get_elem?-reverse_aux_head, get_elem?-reverse_aux_next, set-reverse_aux_head,
  set-reverse_aux_next, length-reverse_aux,
}
use common_lib.Forth.Machine.{Env, Handler}
use common_lib.Forth.Array.{ok}
use common_lib.Forth.Spec
use common_lib.Forth.Spec.{State}
use common_lib.Forth.Prog.{Word, Prog, ◌>>=◌, peek, poke, guard_int}
use common_lib.Forth.Words.Table.{handler}
use common_lib.Forth.Words.Shuffle.{roll_word, mroll_word, roll_shift, mroll_shift}

-- `reverse_aux` of items that stand in order
reverse_aux-reverse_aux :
    (ys acc xs : List ℕ) → reverse_aux (reverse_aux ys acc) xs ≡ reverse_aux acc (ys ++ xs)
reverse_aux-reverse_aux [] acc xs = refl
reverse_aux-reverse_aux (y ∷ ys) acc xs = reverse_aux-reverse_aux ys (y ∷ acc) xs

-- what the loop of `roll` leaves of `reverse_aux rs (x ∷ xs)`
rolled : List ℕ → ℕ → List ℕ → List ℕ
rolled [] x xs = x ∷ xs
rolled (r ∷ rs) x xs = rolled rs r (r ∷ xs)

set-rolled :
    (rs : List ℕ) (x v : ℕ) (xs : List ℕ) → set (rolled rs x xs) 0 v ≡ v ∷ reverse_aux rs xs
unfolding rolled
set-rolled [] x v xs = refl
set-rolled (r ∷ rs) x v xs = set-rolled rs r v (r ∷ xs)

length-rolled : (rs : List ℕ) (x : ℕ) (xs : List ℕ) → 0 < length (rolled rs x xs)
unfolding rolled
length-rolled [] x xs = omega arith
length-rolled (r ∷ rs) x xs = length-rolled rs r (r ∷ xs)

-- what the loop of `-roll` leaves of `y ∷ ys ++ xs`
mrolled : List ℕ → ℕ → List ℕ → List ℕ
mrolled [] y xs = y ∷ xs
mrolled (z ∷ ys) y xs = z ∷ mrolled ys z xs

set-mrolled :
    (ys : List ℕ) (y v : ℕ) (xs : List ℕ) → set (mrolled ys y xs) (length ys) v ≡ ys ++ v ∷ xs
unfolding mrolled
set-mrolled [] y v xs = refl
set-mrolled (z ∷ ys) y v xs = ap (λ t. z ∷ t) (set-mrolled ys z v xs)

length-mrolled :
    (ys : List ℕ) (y : ℕ) (xs : List ℕ) → length (mrolled ys y xs) ≡ suc (length ys + length xs)
unfolding mrolled
length-mrolled [] y xs = omega arith
length-mrolled (z ∷ ys) y xs = omega (arith, length-mrolled ys z xs)

module _ {A : Type 0} (size : ℕ) (f : Unit {0} → Prog A) (e : Env) where
  run-roll_shift :
      (rs : List ℕ) (x : ℕ) (xs : List ℕ)
      → Spec.run size (roll_shift (length rs) >>= f) (reverse_aux rs (x ∷ xs)) e
        ≡ Spec.run size (f tt) (rolled rs x xs) e
  unfolding roll_shift rolled Spec.run
  run-roll_shift [] x xs = refl
  run-roll_shift (r ∷ rs) x xs =
      rw
        (
          get_elem?-reverse_aux_head rs r (x ∷ xs),
          lt→ltb (suc (length rs)) (length (reverse_aux rs (r ∷ x ∷ xs)))
              (omega (arith, length-reverse_aux rs (r ∷ x ∷ xs))),
          set-reverse_aux_next rs r x r xs,
        )
        (run-roll_shift rs r (r ∷ xs))

  run-mroll_shift :
      (ys : List ℕ) (rs : List ℕ) (y : ℕ) (xs : List ℕ)
      → Spec.run size (mroll_shift (length ys) (length rs) >>= f) (reverse_aux rs (y ∷ ys ++ xs)) e
        ≡ Spec.run size (f tt) (reverse_aux rs (mrolled ys y xs)) e
  unfolding mroll_shift mrolled Spec.run
  run-mroll_shift [] rs y xs = refl
  run-mroll_shift (z ∷ ys) rs y xs =
      rw
        (
          get_elem?-reverse_aux_next rs y z (ys ++ xs),
          lt→ltb (length rs) (length (reverse_aux rs (y ∷ z ∷ ys ++ xs)))
              (omega (arith, length-reverse_aux rs (y ∷ z ∷ ys ++ xs))),
          set-reverse_aux_head rs y z (z ∷ ys ++ xs),
          add-one,
        )
        (run-mroll_shift ys (z ∷ rs) z xs)

  guard_int-passes :
      (n : ℕ) (xs : List ℕ)
      → n ≤ length xs
      → n < sign_bit
      → Spec.run size (guard_int n >>= f) xs e ≡ Spec.run size (f tt) xs e
  unfolding guard_int Spec.run
  guard_int-passes n xs h k = ground arith

-- a word that leaves `ys` for `xs` and touches nothing else
abbrev pub Leaves : ℕ → Word → List ℕ → List ℕ → Env → Type 0
Leaves size w xs ys e = Spec.run size w xs e ≡ ok tt (record { items = ys; env = e })

-- the part of `roll` and `-roll` that follows a positive count
abbrev roll_body : ℕ → Word
roll_body u = peek u >>= λ xu. roll_shift u >>= λ _. poke 0 xu

abbrev mroll_body : ℕ → Word
mroll_body u = peek 0 >>= λ x0. mroll_shift u 0 >>= λ _. poke u x0

module _ (size : ℕ) (e : Env) where
  roll_body-Leaves :
      (rs : List ℕ) (x : ℕ) (xs : List ℕ)
      → Leaves size (roll_body (length rs)) (reverse_aux rs (x ∷ xs)) (x ∷ reverse_aux rs xs) e
  unfolding Spec.run
  roll_body-Leaves rs x xs = rw (
    get_elem?-reverse_aux_head rs x xs,
    run-roll_shift size (λ _. poke 0 x) e rs x xs,
    lt→ltb 0 (length (rolled rs x xs)) (length-rolled rs x xs),
    set-rolled rs x x xs,
  )

  mroll_body-Leaves :
      (ys : List ℕ) (x : ℕ) (xs : List ℕ)
      → Leaves size (mroll_body (length ys)) (x ∷ ys ++ xs) (ys ++ x ∷ xs) e
  unfolding Spec.run
  mroll_body-Leaves ys x xs = rw (
    run-mroll_shift size (λ _. poke (length ys) x) e ys [] x xs,
    lt→ltb (length ys) (length (mrolled ys x xs)) (omega (arith, length-mrolled ys x xs)),
    set-mrolled ys x x xs,
  )

  -- A count of at least 1 that the items allow enters the body; 0 does nothing.
  roll-enter :
      (u : ℕ) (xs : List ℕ)
      → 0 < u
      → u + 1 < sign_bit
      → u + 1 ≤ length xs
      → Spec.run size roll_word (u ∷ xs) e ≡ Spec.run size (roll_body u) xs e
  unfolding roll_word Spec.run
  roll-enter u xs pos small fits = ground arith

  mroll-enter :
      (u : ℕ) (xs : List ℕ)
      → 0 < u
      → u + 1 < sign_bit
      → u + 1 ≤ length xs
      → Spec.run size mroll_word (u ∷ xs) e ≡ Spec.run size (mroll_body u) xs e
  unfolding mroll_word Spec.run
  mroll-enter u xs pos small fits = ground arith

  in_order : (ys xs : List ℕ) → reverse_aux (reverse ys) xs ≡ ys ++ xs
  in_order ys xs = reverse_aux-reverse_aux ys [] xs

  length-reverse : (ys : List ℕ) → length (reverse ys) ≡ length ys
  length-reverse ys = omega (arith, length-reverse_aux ys [])

  length-split : (ys : List ℕ) (x : ℕ) (xs : List ℕ) → length ys + 1 ≤ length (ys ++ x ∷ xs)
  length-split ys x xs = omega (arith, length-append ys (x ∷ xs))

  roll_body-in_order :
      (ys : List ℕ) (x : ℕ) (xs : List ℕ)
      → Leaves size (roll_body (length ys)) (ys ++ x ∷ xs) (x ∷ ys ++ xs) e
  roll_body-in_order ys x xs =
      rw (← in_order ys (x ∷ xs), ← in_order ys xs, ← length-reverse ys)
        (roll_body-Leaves (reverse ys) x xs)

  -- `u roll` takes out the item that lies `u` items below the one under its count, and puts it on
  -- top, for `u + 1` below 2 ^ 31.
  pub roll-Leaves :
      (foreign_word : ℕ → Word) (ys : List ℕ) (x : ℕ) (xs : List ℕ)
      → length ys + 1 < sign_bit
      → Leaves size (handler foreign_word Handler.roll) (length ys ∷ ys ++ x ∷ xs) (x ∷ ys ++ xs) e
  unfolding handler
  roll-Leaves f [] x xs small = unfold roll_word Spec.run in ground arith
  roll-Leaves f (y ∷ ys) x xs small =
      roll-enter (suc (length ys)) (y ∷ ys ++ x ∷ xs) (omega arith) small
        (length-split (y ∷ ys) x xs)
      ∙ roll_body-in_order (y ∷ ys) x xs

  -- `u -roll` takes the item under its count and puts it below the `u` items that follow,
  -- for `u + 1` below 2 ^ 31.
  pub mroll-Leaves :
      (foreign_word : ℕ → Word) (ys : List ℕ) (x : ℕ) (xs : List ℕ)
      → length ys + 1 < sign_bit
      → Leaves size (handler foreign_word Handler.mroll) (length ys ∷ x ∷ ys ++ xs) (ys ++ x ∷ xs) e
  unfolding handler
  mroll-Leaves f [] x xs small = unfold mroll_word Spec.run in ground arith
  mroll-Leaves f (y ∷ ys) x xs small =
      mroll-enter (suc (length ys)) (x ∷ y ∷ ys ++ xs) (omega arith) small
        (omega (arith, length-append (y ∷ ys) xs))
      ∙ mroll_body-Leaves (y ∷ ys) x xs
