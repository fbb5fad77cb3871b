-- ===== src/Prelude/Word.antt =====
-- The C types `int` and `unsigned int` of a 32-bit target: a value is its bit pattern, a number
-- below 2 ^ 32. Sums and products wrap (two's complement).
use Prim.Native.Nat.{ℕ, ◌+◌, ◌-◌, ◌*◌, ◌/◌, ◌%◌, ◌^◌}
use mathlib.Core.Bool.{Bool, true, false, xor, ◌&&◌}
use common_lib.Prelude.Tests.{ltb, leb, ◌==◌, if◌then◌else◌}

abbrev pub word_mod : ℕ
word_mod = 2 ^ 32

-- the least pattern that stands for a negative number
abbrev pub sign_bit : ℕ
sign_bit = 2 ^ 31

unfoldable pub add32 : ℕ → ℕ → ℕ
add32 a b = (a + b) % word_mod

unfoldable pub sub32 : ℕ → ℕ → ℕ
sub32 a b = (a + word_mod - b) % word_mod

unfoldable pub mul32 : ℕ → ℕ → ℕ
mul32 a b = (a * b) % word_mod

abbrev pub is_neg : ℕ → Bool
is_neg a = leb sign_bit a

unfoldable pub neg32 : ℕ → ℕ
unfolding sub32
neg32 a = sub32 0 a

-- the pattern shifted so that the order of the signed values is that of the numbers
abbrev pub bias : ℕ → ℕ
bias a = (a + sign_bit) % word_mod

-- `<` and `<=` on `int`
unfoldable pub lt_signed : ℕ → ℕ → Bool
lt_signed a b = ltb (bias a) (bias b)

unfoldable pub le_signed : ℕ → ℕ → Bool
le_signed a b = leb (bias a) (bias b)

-- `|a|`, as a number
unfoldable pub magnitude : ℕ → ℕ
magnitude a = if is_neg a then word_mod - a else a

-- `a / b` and `a % b` on `int`, for a `b` other than 0: both cut off towards 0. The quotient of
-- the least `int` by -1 does not fit.
unfoldable pub div_overflows : ℕ → ℕ → Bool
div_overflows a b = a == sign_bit && b == word_mod - 1

-- the pattern of a magnitude with a sign
unfoldable pub with_sign : Bool → ℕ → ℕ
unfolding neg32
with_sign negative m = if negative then neg32 m else m

unfoldable pub div_signed : ℕ → ℕ → ℕ
div_signed a b = with_sign (xor (is_neg a) (is_neg b)) (magnitude a / magnitude b)

unfoldable pub mod_signed : ℕ → ℕ → ℕ
mod_signed a b = with_sign (is_neg a) (magnitude a % magnitude b)

-- `a << k` and, for an `int`, `a >> k`, which copies the sign
unfoldable pub shl32 : ℕ → ℕ → ℕ
shl32 a k = (a * 2 ^ k) % word_mod

unfoldable pub asr32 : ℕ → ℕ → ℕ
asr32 a k = if is_neg a then word_mod - (word_mod - a + 2 ^ k - 1) / 2 ^ k else a / 2 ^ k

-- a C condition as an `int`
abbrev pub flag : Bool → ℕ
flag true = 1
flag false = 0
