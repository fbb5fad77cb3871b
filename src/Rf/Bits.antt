-- ===== src/Rf/Bits.antt =====
-- A 64-bit variable into which bits are shifted from below, and pulses on the air.
use common_lib.Prelude.{
  ℕ, zero, suc, ◌+◌, ◌*◌, ◌%◌, ◌<◌, ◌≡◌, ◌^◌, ap, ◌∙◌, arith, Bool, true, false, List, [], ◌∷◌,
  length, power_two, flag, not, ◌/◌, ◌==◌,
}

abbrev pub long_mod : ℕ
long_mod = 2 ^ 64

-- `bits <<= 1; bits |= b`
abbrev pub shift_in : ℕ → Bool → ℕ
shift_in bits b = (bits * 2) % long_mod + flag b

-- the number that bits stand for, the highest first, behind those of `acc`
abbrev pub number : List Bool → ℕ → ℕ
number [] acc = acc
number (b ∷ bs) acc = number bs (acc * 2 + flag b)

abbrev pub shift_all : List Bool → ℕ → ℕ
shift_all [] bits = bits
shift_all (b ∷ bs) bits = shift_all bs (shift_in bits b)

number-mod :
    (bs : List Bool) (m n : ℕ)
    → m % long_mod ≡ n % long_mod
    → number bs m % long_mod ≡ number bs n % long_mod
number-mod [] m n e = e
number-mod (b ∷ bs) m n e = number-mod bs (m * 2 + flag b) (n * 2 + flag b) (omega arith)

shift_in-eq : (bits : ℕ) (b : Bool) → shift_in bits b ≡ (bits * 2 + flag b) % long_mod
shift_in-eq bits true = omega arith
shift_in-eq bits false = omega arith

shift_all-number :
    (bs : List Bool) (bits : ℕ) → bits < long_mod → shift_all bs bits ≡ number bs bits % long_mod
shift_all-number [] bits h = omega arith
shift_all-number (b ∷ bs) bits h =
    shift_all-number bs (shift_in bits b) (omega (arith, shift_in-eq bits b))
    ∙ number-mod bs (shift_in bits b) (bits * 2 + flag b) (omega (arith, shift_in-eq bits b))

spread : (acc f p : ℕ) → (acc * 2 + f) * p ≡ acc * (p * 2) + (0 + f) * p
spread acc f p = grind arith

number-add : (bs : List Bool) (acc : ℕ) → number bs acc ≡ acc * power_two (length bs) + number bs 0
number-add [] acc = omega arith
number-add (b ∷ bs) acc = omega (
  arith,
  number-add bs (acc * 2 + flag b),
  number-add bs (0 + flag b),
  spread acc (flag b) (power_two (length bs)),
)

-- After `n` bits, at most 64, the low `n` bits of the variable are those.
pub shift_all-low :
    (bs : List Bool) (bits p : ℕ)
    → bits < long_mod
    → power_two (length bs) ≡ p
    → shift_all bs bits ≡ (bits * p + number bs 0) % long_mod
shift_all-low bs bits p h e =
    shift_all-number bs bits h ∙ ap (λ n. n % long_mod) (rw (← e) (number-add bs bits))

-- the lowest `n` bits of a number, the highest first
abbrev pub low_bits : ℕ → ℕ → List Bool
low_bits zero w = []
low_bits (suc n) w = not (w / 2 ^ n % 2 == 0) ∷ low_bits n w
