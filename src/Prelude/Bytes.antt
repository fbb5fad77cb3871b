-- ===== src/Prelude/Bytes.antt =====
-- Bytes, and statements about every number below a bound, checked by evaluation.
use Prim.Native.Nat.{ℕ, zero, suc, ◌<◌}
use mathlib.Core.Path.{◌≡◌}
use mathlib.Core.Bool.{Bool, true, ◌&&◌}
use native.Mathlib.Omega.{arith}
use mathlib.Core.List.{List, [], ◌∷◌}
use common_lib.Prelude.Tests.{ltb, ◌==◌, ==_iff}

abbrev pub all_below : ℕ → (ℕ → Bool) → Bool
all_below zero p = true
all_below (suc n) p = p n && all_below n p

pub all_below_sound : (n : ℕ) (p : ℕ → Bool) (x : ℕ) → all_below n p ≡ true → x < n → p x ≡ true
all_below_sound zero p x h lt = absurd (omega arith)
all_below_sound (suc n) p x h lt = ground (arith, all_below_sound n p x)

pub equal_below :
    (n : ℕ) (f g : ℕ → ℕ) (x : ℕ) → all_below n (λ x. f x == g x) ≡ true → x < n → f x ≡ g x
equal_below n f g x h lt = (==_iff _ _).0 (all_below_sound n (λ x. f x == g x) x h lt)

abbrev pub all_bytes : List ℕ → Bool
all_bytes [] = true
all_bytes (b ∷ bytes) = ltb b 256 && all_bytes bytes
