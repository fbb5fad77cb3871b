-- ===== src/Forth/Words/Effects.antt =====
-- The stack words against their stack pictures, `( x1 x2 x3 -- x2 x3 x1 )` for `rot`.
use common_lib.Prelude.{
  ℕ, ◌+◌, ◌≤◌, ◌≡◌, refl, arith, Option, none, some, List, [], ◌∷◌, length, Bool, true, false,
}
use common_lib.Forth.Machine.{Env, Handler}
use common_lib.Forth.Array.{Res, ok}
use common_lib.Forth.Spec
use common_lib.Forth.Spec.{State, underflows}
use common_lib.Forth.Prog.{Word}
use common_lib.Forth.Words.Table.{handler}
use common_lib.Forth.Words.Shuffle.{
  drop_word, dup_word, dup2_word, drop2_word, swap_word, swap2_word, over_word, rot_word, mrot_word,
  nip_word, tuck_word,
}

-- The items before a word and after it, the top first; `none` where there are too few.
unfoldable pub picture : Handler → List ℕ → Option (List ℕ)
picture Handler.drop (x1 ∷ xs) = some xs
picture Handler.dup (x1 ∷ xs) = some (x1 ∷ x1 ∷ xs)
picture Handler.dup2 (x2 ∷ x1 ∷ xs) = some (x2 ∷ x1 ∷ x2 ∷ x1 ∷ xs)
picture Handler.drop2 (x2 ∷ x1 ∷ xs) = some xs
picture Handler.swap (x2 ∷ x1 ∷ xs) = some (x1 ∷ x2 ∷ xs)
picture Handler.swap2 (x4 ∷ x3 ∷ x2 ∷ x1 ∷ xs) = some (x2 ∷ x1 ∷ x4 ∷ x3 ∷ xs)
picture Handler.over (x2 ∷ x1 ∷ xs) = some (x1 ∷ x2 ∷ x1 ∷ xs)
picture Handler.rot (x3 ∷ x2 ∷ x1 ∷ xs) = some (x1 ∷ x3 ∷ x2 ∷ xs)
picture Handler.mrot (x3 ∷ x2 ∷ x1 ∷ xs) = some (x2 ∷ x1 ∷ x3 ∷ xs)
picture Handler.nip (x2 ∷ x1 ∷ xs) = some (x2 ∷ xs)
picture Handler.tuck (x2 ∷ x1 ∷ xs) = some (x2 ∷ x1 ∷ x2 ∷ xs)
picture h xs = none

-- the words that have such a picture
unfoldable pub is_shuffle : Handler → Bool
is_shuffle Handler.drop = true
is_shuffle Handler.dup = true
is_shuffle Handler.dup2 = true
is_shuffle Handler.drop2 = true
is_shuffle Handler.swap = true
is_shuffle Handler.swap2 = true
is_shuffle Handler.over = true
is_shuffle Handler.rot = true
is_shuffle Handler.mrot = true
is_shuffle Handler.nip = true
is_shuffle Handler.tuck = true
is_shuffle h = false

-- How a word ends, given its picture: FVM_TRUE with the items of the picture, or FVM_FALSE with
-- the items as they were and the message printed.
abbrev pub drawn : Option (List ℕ) → List ℕ → Env → Res State (Unit {0})
drawn (some ys) xs e = ok tt (record { items = ys; env = e })
drawn none xs e = underflows xs e

-- an array that holds the items, with room for two more
abbrev pub Fits : ℕ → List ℕ → Type 0
Fits size xs = length xs + 2 ≤ size

abbrev Draws : ℕ → Word → Handler → Type 0
Draws size w h =
    (xs : List ℕ) (e : Env) → Fits size xs → Spec.run size w xs e ≡ drawn (picture h xs) xs e

drop-Draws : (size : ℕ) → Draws size drop_word Handler.drop
unfolding picture drop_word underflows Spec.run
drop-Draws size [] e h = refl
drop-Draws size (x1 ∷ xs) e h = ground arith

dup-Draws : (size : ℕ) → Draws size dup_word Handler.dup
unfolding picture dup_word underflows Spec.run
dup-Draws size [] e h = refl
dup-Draws size (x1 ∷ xs) e h = ground arith

dup2-Draws : (size : ℕ) → Draws size dup2_word Handler.dup2
unfolding picture dup2_word underflows Spec.run
dup2-Draws size [] e h = refl
dup2-Draws size (x0 ∷ []) e h = refl
dup2-Draws size (x2 ∷ x1 ∷ xs) e h = ground arith

drop2-Draws : (size : ℕ) → Draws size drop2_word Handler.drop2
unfolding picture drop2_word underflows Spec.run
drop2-Draws size [] e h = refl
drop2-Draws size (x0 ∷ []) e h = refl
drop2-Draws size (x2 ∷ x1 ∷ xs) e h = ground arith

swap-Draws : (size : ℕ) → Draws size swap_word Handler.swap
unfolding picture swap_word underflows Spec.run
swap-Draws size [] e h = refl
swap-Draws size (x0 ∷ []) e h = refl
swap-Draws size (x2 ∷ x1 ∷ xs) e h = ground arith

swap2-Draws : (size : ℕ) → Draws size swap2_word Handler.swap2
unfolding picture swap2_word underflows Spec.run
swap2-Draws size [] e h = refl
swap2-Draws size (x0 ∷ []) e h = refl
swap2-Draws size (x0 ∷ x1 ∷ []) e h = refl
swap2-Draws size (x0 ∷ x1 ∷ x2 ∷ []) e h = refl
swap2-Draws size (x4 ∷ x3 ∷ x2 ∷ x1 ∷ xs) e h = ground arith

over-Draws : (size : ℕ) → Draws size over_word Handler.over
unfolding picture over_word underflows Spec.run
over-Draws size [] e h = refl
over-Draws size (x0 ∷ []) e h = refl
over-Draws size (x2 ∷ x1 ∷ xs) e h = ground arith

rot-Draws : (size : ℕ) → Draws size rot_word Handler.rot
unfolding picture rot_word underflows Spec.run
rot-Draws size [] e h = refl
rot-Draws size (x0 ∷ []) e h = refl
rot-Draws size (x0 ∷ x1 ∷ []) e h = refl
rot-Draws size (x3 ∷ x2 ∷ x1 ∷ xs) e h = ground arith

mrot-Draws : (size : ℕ) → Draws size mrot_word Handler.mrot
unfolding picture mrot_word underflows Spec.run
mrot-Draws size [] e h = refl
mrot-Draws size (x0 ∷ []) e h = refl
mrot-Draws size (x0 ∷ x1 ∷ []) e h = refl
mrot-Draws size (x3 ∷ x2 ∷ x1 ∷ xs) e h = ground arith

nip-Draws : (size : ℕ) → Draws size nip_word Handler.nip
unfolding picture nip_word underflows Spec.run
nip-Draws size [] e h = refl
nip-Draws size (x0 ∷ []) e h = refl
nip-Draws size (x2 ∷ x1 ∷ xs) e h = ground arith

tuck-Draws : (size : ℕ) → Draws size tuck_word Handler.tuck
unfolding picture tuck_word underflows Spec.run
tuck-Draws size [] e h = refl
tuck-Draws size (x0 ∷ []) e h = refl
tuck-Draws size (x2 ∷ x1 ∷ xs) e h = ground arith

-- Each of `drop dup 2dup 2drop swap 2swap over rot -rot nip tuck` does what its stack picture
-- says when there are enough items (and room for two more), and otherwise fails, prints
-- "Data stack underflow." and leaves every item.
pub handler_draws :
    (foreign_word : ℕ → Word) (size : ℕ) (h : Handler) (xs : List ℕ) (e : Env)
    → is_shuffle h ≡ true
    → Fits size xs
    → Spec.run size (handler foreign_word h) xs e ≡ drawn (picture h xs) xs e
unfolding handler is_shuffle
handler_draws f size Handler.drop xs e s r = drop-Draws size xs e r
handler_draws f size Handler.dup xs e s r = dup-Draws size xs e r
handler_draws f size Handler.dup2 xs e s r = dup2-Draws size xs e r
handler_draws f size Handler.drop2 xs e s r = drop2-Draws size xs e r
handler_draws f size Handler.swap xs e s r = swap-Draws size xs e r
handler_draws f size Handler.swap2 xs e s r = swap2-Draws size xs e r
handler_draws f size Handler.over xs e s r = over-Draws size xs e r
handler_draws f size Handler.rot xs e s r = rot-Draws size xs e r
handler_draws f size Handler.mrot xs e s r = mrot-Draws size xs e r
handler_draws f size Handler.nip xs e s r = nip-Draws size xs e r
handler_draws f size Handler.tuck xs e s r = tuck-Draws size xs e r
handler_draws f size _ xs e s r = cc
