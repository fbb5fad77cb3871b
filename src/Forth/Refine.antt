-- ===== src/Forth/Refine.antt =====
-- The array machine is the list machine: every handler, run on a valid `fvm_data`, does to the
-- items above the stack pointer what it does to the list of them.
use common_lib.Prelude.{
  ℕ, zero, suc, ◌+◌, ◌-◌, ◌<◌, ◌≡◌, refl, ap, arith, ◌==◌, Bool-cases, Option-cases, inl, inr, none,
  some, List, [], ◌∷◌, get_elem?, length, set, length-set, length-drop, drop,
}
use Prim.Native.Nat.add
use common_lib.Forth.Prog.{
  Prog, return, popping, pushing, peeking, poking, dropping, measuring, clearing, reading, writing,
  failing, faulting, starving,
}
use common_lib.Forth.Array
use common_lib.Forth.Array.{Fvm, Res, ok, failed, fault, out_of_fuel, on_value, IsValid}
use common_lib.Forth.Spec
use common_lib.Forth.Spec.{State}

-- the items from the stack pointer to the end of the array
abbrev pub live : Fvm → List ℕ
live m = drop m.sp m.cells

abbrev pub view : {A : Type 0} → Res Fvm A → Res State A
view (ok a m) = ok a (record { items = live m; env = m.env })
view (failed m) = failed (record { items = live m; env = m.env })
view fault = fault
view out_of_fuel = out_of_fuel

get_elem?-drop : (s i : ℕ) (xs : List ℕ) → get_elem? xs (s + i) ≡ get_elem? (drop s xs) i
get_elem?-drop zero i xs = ap (get_elem? xs) (omega arith)
get_elem?-drop (suc s) i [] = refl
get_elem?-drop (suc s) i (x ∷ xs) = rw (add.suc s i) (get_elem?-drop s i xs)

drop-set : (s i v : ℕ) (xs : List ℕ) → drop s (set xs (s + i) v) ≡ set (drop s xs) i v
drop-set zero i v xs = ap (λ k. set xs k v) (omega arith)
drop-set (suc s) i v [] = refl
drop-set (suc s) i v (x ∷ xs) = rw (add.suc s i) (drop-set s i v xs)

drop-add : (s n : ℕ) (xs : List ℕ) → drop (s + n) xs ≡ drop n (drop s xs)
drop-add zero n xs = ap (λ k. drop k xs) (omega arith)
drop-add (suc s) zero [] = rw (add.suc s 0)
drop-add (suc s) (suc n) [] = rw (add.suc s (suc n))
drop-add (suc s) n (x ∷ xs) = rw (add.suc s n) (drop-add s n xs)

drop-length : (xs : List ℕ) → drop (length xs) xs ≡ []
drop-length [] = refl
drop-length (x ∷ xs) = drop-length xs

-- `*--sp = v` puts `v` on top of the items.
drop-set_below : (s v : ℕ) (xs : List ℕ) → s < length xs → drop s (set xs s v) ≡ v ∷ drop (s + 1) xs
drop-set_below s v [] h = elim h [ ]
drop-set_below zero v (x ∷ xs) h = refl
drop-set_below (suc s) v (x ∷ xs) h = rw (add.suc s 1) (drop-set_below s v xs (omega arith))

-- `*sp++` takes the top item, or reads past the end when there is none.
drop-of_none : (s : ℕ) (xs : List ℕ) → get_elem? xs s ≡ none → drop s xs ≡ []
drop-of_none zero [] h = refl
drop-of_none (suc s) [] h = refl
drop-of_none zero (x ∷ xs) h = cc
drop-of_none (suc s) (x ∷ xs) h = drop-of_none s xs h

drop-of_some : (s v : ℕ) (xs : List ℕ) → get_elem? xs s ≡ some v → drop s xs ≡ v ∷ drop (s + 1) xs
drop-of_some zero v [] h = cc
drop-of_some (suc s) v [] h = cc
drop-of_some zero v (x ∷ xs) h = ground arith
drop-of_some (suc s) v (x ∷ xs) h = rw (add.suc s 1) (drop-of_some s v xs h)

lt-length_of_some : (s v : ℕ) (xs : List ℕ) → get_elem? xs s ≡ some v → s < length xs
lt-length_of_some s v [] h = cc
lt-length_of_some zero v (x ∷ xs) h = omega arith
lt-length_of_some (suc s) v (x ∷ xs) h = omega (arith, lt-length_of_some s v xs h)

-- Running a handler on the array and looking at the items is running it on the items.
pub run_refines :
    {A : Type 0} (p : Prog A) (m : Fvm)
    → IsValid m
    → view (Array.run p m) ≡ Spec.run (length m.cells) p (live m) m.env
unfolding Array.run Spec.run
run_refines (return a) m h = refl
run_refines (popping k) m h = elim (Option-cases (get_elem? m.cells m.sp)) [
  | inl e ↦ rw (e, drop-of_none m.sp m.cells e)
  | inr (v, e) ↦
      rw (e, drop-of_some m.sp v m.cells e)
        (run_refines (k v) (record m { sp = m.sp + 1 })
          (omega (arith, lt-length_of_some m.sp v m.cells e)))
]
run_refines (pushing v k) m h = elim (Bool-cases (m.sp == 0)) [
  | inl e ↦ ground (arith, length-drop m.sp m.cells)
  | inr e ↦ ground (
    arith,
    length-drop m.sp m.cells,
    length-set m.cells (m.sp - 1) v,
    drop-set_below (m.sp - 1) v m.cells,
    run_refines k (record m { cells = set m.cells (m.sp - 1) v; sp = m.sp - 1 }),
  )
]
run_refines (peeking i k) m h = elim (Option-cases (get_elem? (live m) i)) [
  | inl e ↦ rw (get_elem?-drop m.sp i m.cells, e)
  | inr (v, e) ↦ rw (get_elem?-drop m.sp i m.cells, e) (run_refines (k v) m h)
]
run_refines (poking i v k) m h = ground (
  arith,
  length-drop m.sp m.cells,
  length-set m.cells (m.sp + i) v,
  drop-set m.sp i v m.cells,
  run_refines k (record m { cells = set m.cells (m.sp + i) v }),
)
run_refines (dropping n k) m h = ground (
  arith,
  length-drop m.sp m.cells,
  drop-add m.sp n m.cells,
  run_refines k (record m { sp = m.sp + n }),
)
run_refines (measuring k) m h =
    rw (length-drop m.sp m.cells) (run_refines (k (length m.cells - m.sp)) m h)
run_refines (clearing k) m h =
    rw (← drop-length m.cells) (run_refines k (record m { sp = length m.cells }) (omega arith))
run_refines (reading k) m h = run_refines (k m.env) m h
run_refines (writing e k) m h = run_refines k (record m { env = e }) h
run_refines failing m h = refl
run_refines faulting m h = refl
run_refines starving m h = refl
