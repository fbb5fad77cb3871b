-- ===== src/Forth/Words/Division.antt =====
-- `/` and `mod`: the quotient and the remainder of C.
use common_lib.Prelude.{
  ℕ, ◌+◌, ◌*◌, ◌/◌, ◌%◌, ◌≤◌, ◌<◌, ◌≡◌, ◌≢◌, ◌⊎◌, inl, inr, refl, arith, Bool, true, false, xor,
  List, ◌∷◌, word_mod, is_neg, sign_bit, magnitude, div_overflows, div_signed, mod_signed,
  with_sign,
}
use native.Mathlib.Nat.{div-add-mod', mod-lt, div-le_self}
use common_lib.Forth.Machine.{Env, Handler}
use common_lib.Forth.Array.{ok}
use common_lib.Forth.Spec
use common_lib.Forth.Prog.{Word}
use common_lib.Forth.Words.Table.{handler}
use common_lib.Forth.Words.Arith.{div_word, mod_word}

-- a pattern that stands for a number of magnitude `m`, negative if `s` says so
record HasSign (m : ℕ) (s : Bool) (x : ℕ) : Type 0 where
  size : magnitude x ≡ m
  sign : (x ≡ 0) ⊎ (is_neg x ≡ s)
  range : x < word_mod

with_sign-HasSign :
    (s : Bool) (m : ℕ) → m ≤ sign_bit → (s ≡ false → m < sign_bit) → HasSign m s (with_sign s m)
unfolding magnitude with_sign
with_sign-HasSign true m h k = ground arith
with_sign-HasSign false m h k = let lt = k refl in ground arith

eq_of_xor : (s t : Bool) → xor s t ≡ false → s ≡ t
unfolding xor
eq_of_xor true true h = refl
eq_of_xor true false h = cc
eq_of_xor false true h = cc
eq_of_xor false false h = refl

magnitude-le : (a : ℕ) → a < word_mod → magnitude a ≤ sign_bit
unfolding magnitude
magnitude-le a h = ground arith

double-le : (q b : ℕ) → 2 ≤ b → q * 2 ≤ q * b
double-le q b h = grind arith

-- What C promises of `a / b = q` and `a % b = r`: `|q| * |b| + |r| = |a|` with `|r| < |b|`, a
-- quotient with the sign that the two signs give, and a remainder with the sign of `a`.
pub record Divides (a b q r : ℕ) : Type 0 where
  pub sum : magnitude q * magnitude b + magnitude r ≡ magnitude a
  pub small : magnitude r < magnitude b
  pub quotient_sign : (q ≡ 0) ⊎ (is_neg q ≡ xor (is_neg a) (is_neg b))
  pub remainder_sign : (r ≡ 0) ⊎ (is_neg r ≡ is_neg a)

module _ (a b : ℕ) (ha : a < word_mod) (hb : b < word_mod) (nz : b ≢ 0)
    (fits : div_overflows a b ≡ false) where
  magnitude-pos : 0 < magnitude b
  unfolding magnitude
  magnitude-pos = ground arith

  quotient-le : magnitude a / magnitude b ≤ sign_bit
  quotient-le = omega (arith, magnitude-le a ha, div-le_self (magnitude a) (magnitude b))

  remainder-lt : magnitude a % magnitude b < sign_bit
  remainder-lt = omega (arith, magnitude-le b hb, mod-lt (magnitude a) magnitude-pos)

  one_or_more : (magnitude b ≡ 1) ⊎ (2 ≤ magnitude b)
  one_or_more = grind (arith, magnitude-pos)

  quotient_sum : magnitude a / magnitude b * magnitude b + magnitude a % magnitude b ≡ magnitude a
  quotient_sum = div-add-mod' (magnitude a) (magnitude b)

  -- The quotient of two numbers of one sign is at most the greatest `int`.
  no_overflow : is_neg a ≡ is_neg b → magnitude b ≡ 1 → magnitude a < sign_bit
  unfolding magnitude div_overflows
  no_overflow s one = ground arith

  quotient-lt : is_neg a ≡ is_neg b → magnitude a / magnitude b < sign_bit
  quotient-lt s = elim one_or_more [
    | inl one ↦ omega (arith, no_overflow s one, div-le_self (magnitude a) (magnitude b))
    | inr two ↦ omega (
      arith,
      magnitude-le a ha,
      quotient_sum,
      double-le (magnitude a / magnitude b) (magnitude b) two,
    )
  ]

  quotient-HasSign :
      HasSign (magnitude a / magnitude b) (xor (is_neg a) (is_neg b)) (div_signed a b)
  unfolding div_signed
  quotient-HasSign = with_sign-HasSign _ _ quotient-le (λ s. quotient-lt (eq_of_xor _ _ s))

  remainder-HasSign : HasSign (magnitude a % magnitude b) (is_neg a) (mod_signed a b)
  unfolding mod_signed
  remainder-HasSign = with_sign-HasSign _ _ (omega (arith, remainder-lt)) (λ s. remainder-lt)

  division-Divides : Divides a b (div_signed a b) (mod_signed a b)
  division-Divides = record {
    sum = rw (quotient-HasSign.size, remainder-HasSign.size) quotient_sum;
    small = rw remainder-HasSign.size (mod-lt (magnitude a) magnitude-pos);
    quotient_sign = quotient-HasSign.sign;
    remainder_sign = remainder-HasSign.sign;
  }

  -- For a divisor other than 0, and unless the least `int` is divided by -1, `/` and `mod` leave
  -- the quotient and the remainder of the two top items, the dividend below the divisor.
  pub handler-Divides :
      (foreign_word : ℕ → Word) (size : ℕ) (xs : List ℕ) (e : Env)
      → (q r : ℕ) × (Spec.run size (handler foreign_word Handler.div) (b ∷ a ∷ xs) e
          ≡ ok tt (record { items = q ∷ xs; env = e }))
        × (Spec.run size (handler foreign_word Handler.modulo) (b ∷ a ∷ xs) e
            ≡ ok tt (record { items = r ∷ xs; env = e }))
        × Divides a b q r
  handler-Divides f size xs e = (
    div_signed a b,
    mod_signed a b,
    unfold handler Spec.run div_word in ground arith,
    unfold handler Spec.run mod_word in ground arith,
    division-Divides,
  )
