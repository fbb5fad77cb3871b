-- ===== src/Forth/Words/Faults.antt =====
-- Words of forth/forth_words.c on inputs that they do not check, and three that do other than their
-- names or comments say.
use common_lib.Prelude.{
  ℕ, ◌+◌, ◌-◌, ◌*◌, ◌^◌, ◌≤◌, ◌<◌, ◌≡◌, refl, arith, Bool, true, false, List, [], ◌∷◌, ◌++◌,
  word_mod, sign_bit, is_neg, asr32,
}
use native.Mathlib.Nat.{one-le-pow, div-le_of_le-mul}
use common_lib.Forth.Machine.{Env, Handler, put_string, crlf_text}
use common_lib.Forth.Array.{ok, failed, fault}
use common_lib.Forth.Spec
use common_lib.Forth.Prog.{Word, codes}
use common_lib.Forth.Words.Table.{handler}
use common_lib.Forth.Words.Arith.{div_word, mod_word, ones_word, twos_word, rshift_word}
use common_lib.Forth.Words.Compare.{ne0_word, gt0_word, lt0_word}

asr32_negative : (a k : ℕ) → is_neg a ≡ true → a < word_mod → is_neg (asr32 a k) ≡ true
unfolding asr32
asr32_negative a k neg ha = ground (
  arith,
  one-le-pow k 2 (omega arith),
  div-le_of_le-mul (2 ^ k) {m = word_mod - a + 2 ^ k - 1} {n = sign_bit}
      (below (2 ^ k) (one-le-pow k 2 (omega arith))),
)
  where
    below : (p : ℕ) → 1 ≤ p → word_mod - a + p - 1 ≤ p * sign_bit
    below p h = ground arith

-- `0<>`, `0>` and `0<`
unfoldable pub is_unguarded : Handler → Bool
is_unguarded Handler.ne0 = true
is_unguarded Handler.gt0 = true
is_unguarded Handler.lt0 = true
is_unguarded h = false

module _ (foreign_word : ℕ → Word) (size : ℕ) (e : Env) where
  -- On an empty stack `0<>`, `0>` and `0<` access the cell past the end of the stack array.
  unguarded_faults :
      (h : Handler) → is_unguarded h ≡ true → Spec.run size (handler foreign_word h) [] e ≡ fault
  unfolding handler is_unguarded Spec.run ne0_word gt0_word lt0_word
  unguarded_faults Handler.ne0 q = refl
  unguarded_faults _ q = ground arith

  -- A divisor 0 makes `/` fail with a message, the divisor taken off the stack; `mod` divides by it,
  -- which is undefined.
  zero_divisor :
      (a : ℕ) (xs : List ℕ)
      → (Spec.run size (handler foreign_word Handler.div) (0 ∷ a ∷ xs) e
          ≡ failed (record {
            items = a ∷ xs;
            env = put_string (codes "Division by zero." ++ crlf_text) e;
          }))
        × (Spec.run size (handler foreign_word Handler.modulo) (0 ∷ a ∷ xs) e ≡ fault)
  unfolding handler Spec.run div_word mod_word
  zero_divisor a xs = (ground arith, ground arith)

  -- `2-` subtracts 1: it is `1-`, whatever the stack.
  twos-eq-ones :
      (xs : List ℕ)
      → Spec.run size (handler foreign_word Handler.twos) xs e
        ≡ Spec.run size (handler foreign_word Handler.ones) xs e
  unfolding handler twos_word ones_word
  twos-eq-ones xs = refl

  -- `rshift` of a negative number by less than 32 leaves a negative number: the sign is copied into
  -- the high bits.
  rshift_negative :
      (a k : ℕ) (xs : List ℕ)
      → is_neg a ≡ true
      → a < word_mod
      → k < 32
      → (r : ℕ) × (Spec.run size (handler foreign_word Handler.rshift) (k ∷ a ∷ xs) e
          ≡ ok tt (record { items = r ∷ xs; env = e }))
        × (is_neg r ≡ true)
  rshift_negative a k xs neg ha hk =
      (asr32 a k, unfold handler Spec.run rshift_word in ground arith, asr32_negative a k neg ha)
