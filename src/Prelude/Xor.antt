-- ===== src/Prelude/Xor.antt =====
-- Laws of `bit_xor`, from the definition that the native operation stands for.
use Prim.Native.Nat.{
  ℕ, zero, suc, ◌+◌, ◌*◌, ◌/◌, ◌%◌, ◌≤◌, ◌<◌, bit_xor, digits, differ, bit_xor-bitwise,
}
use mathlib.Core.Path.{◌≡◌, refl, ap, ◌∙◌, sym}
use native.Mathlib.Omega.{arith}

differ-digits : (x y : ℕ) → x < 2 → y < 2 → differ x y ≡ (x + y) % 2
differ-digits zero y hx hy = omega arith
differ-digits (suc zero) zero hx hy = refl
differ-digits (suc zero) (suc zero) hx hy = refl
differ-digits (suc zero) (suc (suc y)) hx hy = absurd (omega arith)
differ-digits (suc (suc x)) y hx hy = absurd (omega arith)

abbrev xor_digits : ℕ → ℕ → ℕ → ℕ
xor_digits n a b = digits (λ b. b) differ n a b

xor_digits_fuel : (n m a b : ℕ) → a ≤ n → a ≤ m → xor_digits n a b ≡ xor_digits m a b
xor_digits_fuel zero zero a b p q = refl
xor_digits_fuel zero (suc m) zero b p q = refl
xor_digits_fuel zero (suc m) (suc a) b p q = absurd (omega arith)
xor_digits_fuel (suc n) zero zero b p q = refl
xor_digits_fuel (suc n) zero (suc a) b p q = absurd (omega arith)
xor_digits_fuel (suc n) (suc m) zero b p q = refl
xor_digits_fuel (suc n) (suc m) (suc a) b p q =
    omega (arith, xor_digits_fuel n m (suc a / 2) (b / 2) (omega arith) (omega arith))

zero-bit_xor : (b : ℕ) → bit_xor 0 b ≡ b
zero-bit_xor b = bit_xor-bitwise 0 b

pub bit_xor_step : (a b : ℕ) → bit_xor a b ≡ bit_xor (a / 2) (b / 2) * 2 + (a % 2 + b % 2) % 2
bit_xor_step zero b = omega (arith, zero-bit_xor b, zero-bit_xor (b / 2))
bit_xor_step (suc a) b = omega (
  arith,
  bit_xor-bitwise (suc a) b,
  bit_xor-bitwise (suc a / 2) (b / 2),
  xor_digits_fuel a (suc a / 2) (suc a / 2) (b / 2) (omega arith) (omega arith),
  differ-digits (suc a % 2) (b % 2) (omega arith) (omega arith),
)

bit_xor_half : (a b : ℕ) → bit_xor a b / 2 ≡ bit_xor (a / 2) (b / 2)
bit_xor_half a b = omega (arith, bit_xor_step a b)

bit_xor_cancel_fuel : (n a b : ℕ) → a + b ≤ n → bit_xor (bit_xor a b) b ≡ a
bit_xor_cancel_fuel n zero zero h = refl
bit_xor_cancel_fuel zero (suc a) b h = absurd (omega arith)
bit_xor_cancel_fuel zero zero (suc b) h = absurd (omega arith)
bit_xor_cancel_fuel (suc n) zero (suc b) h = omega (
  arith,
  bit_xor_step (bit_xor 0 (suc b)) (suc b),
  bit_xor_step 0 (suc b),
  ap (λ x. bit_xor x (suc b / 2)) (bit_xor_half 0 (suc b)),
  bit_xor_cancel_fuel n 0 (suc b / 2) (omega arith),
)
bit_xor_cancel_fuel (suc n) (suc a) b h = omega (
  arith,
  bit_xor_step (bit_xor (suc a) b) b,
  bit_xor_step (suc a) b,
  ap (λ x. bit_xor x (b / 2)) (bit_xor_half (suc a) b),
  bit_xor_cancel_fuel n (suc a / 2) (b / 2) (omega arith),
)

pub bit_xor_cancel : (a b : ℕ) → bit_xor (bit_xor a b) b ≡ a
bit_xor_cancel a b = bit_xor_cancel_fuel (a + b) a b (omega arith)

bit_xor_comm_fuel : (n a b : ℕ) → a + b ≤ n → bit_xor a b ≡ bit_xor b a
bit_xor_comm_fuel n zero zero h = refl
bit_xor_comm_fuel zero (suc a) b h = absurd (omega arith)
bit_xor_comm_fuel zero zero (suc b) h = absurd (omega arith)
bit_xor_comm_fuel (suc n) zero (suc b) h = omega (
  arith,
  bit_xor_step 0 (suc b),
  bit_xor_step (suc b) 0,
  bit_xor_comm_fuel n 0 (suc b / 2) (omega arith),
)
bit_xor_comm_fuel (suc n) (suc a) b h = omega (
  arith,
  bit_xor_step (suc a) b,
  bit_xor_step b (suc a),
  bit_xor_comm_fuel n (suc a / 2) (b / 2) (omega arith),
)

pub bit_xor_comm : (a b : ℕ) → bit_xor a b ≡ bit_xor b a
bit_xor_comm a b = bit_xor_comm_fuel (a + b) a b (omega arith)

pub bit_xor_self : (a : ℕ) → bit_xor a a ≡ 0
bit_xor_self a = ap (λ x. bit_xor x a) (sym (zero-bit_xor a)) ∙ bit_xor_cancel 0 a

abbrev pub power_two : ℕ → ℕ
power_two zero = 1
power_two (suc k) = power_two k * 2

bit_xor_lt : (k a b : ℕ) → a < power_two k → b < power_two k → bit_xor a b < power_two k
bit_xor_lt zero zero zero ha hb = omega (arith, zero-bit_xor 0)
bit_xor_lt zero zero (suc b) ha hb = absurd (omega arith)
bit_xor_lt zero (suc a) b ha hb = absurd (omega arith)
bit_xor_lt (suc k) a b ha hb =
    omega (arith, bit_xor_step a b, bit_xor_lt k (a / 2) (b / 2) (omega arith) (omega arith))

pub bit_xor_byte : (a b : ℕ) → a < 256 → b < 256 → bit_xor a b < 256
bit_xor_byte a b ha hb = bit_xor_lt 8 a b ha hb
