-- ===== src/Forth/Words/Reversed.antt =====
-- Lists whose first items are kept in reverse, for the loops of `roll` and `-roll`.
use mathlib.Core.List.{reverse_aux}
use common_lib.Prelude.{
  ℕ, suc, ◌+◌, ◌≡◌, ap, ◌∙◌, arith, some, List, [], ◌∷◌, length, get_elem?, set,
}

-- The items above a position are kept in reverse: `reverse_aux rs xs` has `xs` below `rs`.
pub get_elem?-reverse_aux :
    (rs : List ℕ) (i : ℕ) (xs : List ℕ)
    → get_elem? (reverse_aux rs xs) (length rs + i) ≡ get_elem? xs i
get_elem?-reverse_aux [] i xs = ap (get_elem? xs) (omega arith)
get_elem?-reverse_aux (r ∷ rs) i xs =
    ap (get_elem? (reverse_aux rs (r ∷ xs))) (omega arith)
    ∙ get_elem?-reverse_aux rs (suc i) (r ∷ xs)

pub set-reverse_aux :
    (rs : List ℕ) (i v : ℕ) (xs : List ℕ)
    → set (reverse_aux rs xs) (length rs + i) v ≡ reverse_aux rs (set xs i v)
set-reverse_aux [] i v xs = ap (λ k. set xs k v) (omega arith)
set-reverse_aux (r ∷ rs) i v xs =
    ap (λ k. set (reverse_aux rs (r ∷ xs)) k v) (omega arith)
    ∙ set-reverse_aux rs (suc i) v (r ∷ xs)

pub length-reverse_aux : (rs xs : List ℕ) → length (reverse_aux rs xs) ≡ length rs + length xs
length-reverse_aux [] xs = omega arith
length-reverse_aux (r ∷ rs) xs = omega (arith, length-reverse_aux rs (r ∷ xs))

pub get_elem?-reverse_aux_head :
    (rs : List ℕ) (x : ℕ) (xs : List ℕ) → get_elem? (reverse_aux rs (x ∷ xs)) (length rs) ≡ some x
get_elem?-reverse_aux_head rs x xs =
    ap (get_elem? (reverse_aux rs (x ∷ xs))) (omega arith) ∙ get_elem?-reverse_aux rs 0 (x ∷ xs)

pub get_elem?-reverse_aux_next :
    (rs : List ℕ) (x y : ℕ) (xs : List ℕ)
    → get_elem? (reverse_aux rs (x ∷ y ∷ xs)) (length rs + 1) ≡ some y
get_elem?-reverse_aux_next rs x y xs = get_elem?-reverse_aux rs 1 (x ∷ y ∷ xs)

pub set-reverse_aux_head :
    (rs : List ℕ) (x v : ℕ) (xs : List ℕ)
    → set (reverse_aux rs (x ∷ xs)) (length rs) v ≡ reverse_aux rs (v ∷ xs)
set-reverse_aux_head rs x v xs =
    ap (λ k. set (reverse_aux rs (x ∷ xs)) k v) (omega arith) ∙ set-reverse_aux rs 0 v (x ∷ xs)

pub set-reverse_aux_next :
    (rs : List ℕ) (x y v : ℕ) (xs : List ℕ)
    → set (reverse_aux rs (x ∷ y ∷ xs)) (suc (length rs)) v ≡ reverse_aux rs (x ∷ v ∷ xs)
set-reverse_aux_next rs x y v xs =
    ap (λ k. set (reverse_aux rs (x ∷ y ∷ xs)) k v) (omega arith)
    ∙ set-reverse_aux rs 1 v (x ∷ y ∷ xs)
