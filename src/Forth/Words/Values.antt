-- ===== src/Forth/Words/Values.antt =====
-- The words that compute, against the integers that the items stand for.
use common_lib.Prelude.{
  ℕ, ◌<◌, ◌≡◌, arith, Bool, not, Option, none, some, List, ◌∷◌, flag, if◌then◌else◌, ◌&&◌, word_mod,
}
use common_lib.Prelude.Int.{ℤ, pos, negsuc, ◌+ℤ◌, ◌-ℤ◌, ltb_ℤ, eqb_ℤ, to_int, of_int}
use common_lib.Forth.Machine.{Env, Handler}
use common_lib.Forth.Array.{ok}
use common_lib.Forth.Spec
use common_lib.Forth.Prog.{Word}
use common_lib.Forth.Words.Table.{handler}
use common_lib.Forth.Words.Arith.{
  plus_word, minus_word, onep_word, ones_word, twop_word, twom_word, negate_word, abs_word,
  invert_word, max_word, min_word,
}
use common_lib.Forth.Words.Compare.{
  eq_word, ne_word, lt_word, gt_word, le_word, ge_word, eq0_word, ne0_word, gt0_word, lt0_word,
  le0_word, ge0_word, within_word,
}

-- what a word of two items tests
unfoldable pub relation : Handler → Option (ℤ → ℤ → Bool)
relation Handler.eq = some (λ a b. eqb_ℤ a b)
relation Handler.ne = some (λ a b. not (eqb_ℤ a b))
relation Handler.lt = some (λ a b. ltb_ℤ a b)
relation Handler.gt = some (λ a b. ltb_ℤ b a)
relation Handler.le = some (λ a b. not (ltb_ℤ b a))
relation Handler.ge = some (λ a b. not (ltb_ℤ a b))
relation h = none

-- what a word of one item tests against 0
unfoldable pub zero_relation : Handler → Option (ℤ → Bool)
zero_relation Handler.eq0 = some (λ a. eqb_ℤ a (pos 0))
zero_relation Handler.ne0 = some (λ a. not (eqb_ℤ a (pos 0)))
zero_relation Handler.lt0 = some (λ a. ltb_ℤ a (pos 0))
zero_relation Handler.gt0 = some (λ a. ltb_ℤ (pos 0) a)
zero_relation Handler.le0 = some (λ a. not (ltb_ℤ (pos 0) a))
zero_relation Handler.ge0 = some (λ a. not (ltb_ℤ a (pos 0)))
zero_relation h = none

-- what a word of two items computes, before it is cut to 32 bits
unfoldable pub operation : Handler → Option (ℤ → ℤ → ℤ)
operation Handler.plus = some (λ a b. a +ℤ b)
operation Handler.minus = some (λ a b. a -ℤ b)
operation Handler.max = some (λ a b. if ltb_ℤ a b then b else a)
operation Handler.min = some (λ a b. if ltb_ℤ b a then b else a)
operation h = none

-- what a word of one item computes
unfoldable pub function : Handler → Option (ℤ → ℤ)
function Handler.onep = some (λ a. a +ℤ pos 1)
function Handler.ones = some (λ a. a -ℤ pos 1)
function Handler.twop = some (λ a. a +ℤ pos 2)
function Handler.twom = some (λ a. a +ℤ a)
function Handler.negate = some (λ a. pos 0 -ℤ a)
function Handler.abs = some (λ a. if ltb_ℤ a (pos 0) then pos 0 -ℤ a else a)
function Handler.invert = some (λ a. negsuc 0 -ℤ a)
function h = none

module _ (foreign_word : ℕ → Word) (size : ℕ) (xs : List ℕ) (e : Env) where
  -- `= <> < > <= >=` compare the two top items as signed integers, the lower one on the left, and
  -- leave 1 or 0 for them.
  handler_compares :
      (h : Handler) (a b : ℕ) {r : ℤ → ℤ → Bool}
      → relation h ≡ some r
      → a < word_mod
      → b < word_mod
      → Spec.run size (handler foreign_word h) (b ∷ a ∷ xs) e
        ≡ ok tt (record { items = flag (r (to_int a) (to_int b)) ∷ xs; env = e })
  unfolding handler relation Spec.run eq_word ne_word lt_word gt_word le_word ge_word
  handler_compares Handler.eq a b q ha hb = ground arith
  handler_compares _ a b q ha hb = ground arith

  -- `0= 0<> 0< 0> 0<= 0>=` compare the top item with 0.
  handler_compares_zero :
      (h : Handler) (a : ℕ) {r : ℤ → Bool}
      → zero_relation h ≡ some r
      → a < word_mod
      → Spec.run size (handler foreign_word h) (a ∷ xs) e
        ≡ ok tt (record { items = flag (r (to_int a)) ∷ xs; env = e })
  unfolding handler zero_relation Spec.run eq0_word ne0_word lt0_word gt0_word le0_word ge0_word
  handler_compares_zero Handler.eq0 a q ha = ground arith
  handler_compares_zero _ a q ha = ground arith

  -- `+ - max min` compute on the signed integers and keep the low 32 bits of the result.
  pub handler_computes :
      (h : Handler) (a b : ℕ) {f : ℤ → ℤ → ℤ}
      → operation h ≡ some f
      → a < word_mod
      → b < word_mod
      → Spec.run size (handler foreign_word h) (b ∷ a ∷ xs) e
        ≡ ok tt (record { items = of_int (f (to_int a) (to_int b)) ∷ xs; env = e })
  unfolding handler operation Spec.run plus_word minus_word max_word min_word ◌+ℤ◌ ◌-ℤ◌
  handler_computes Handler.plus a b q ha hb = ground arith
  handler_computes _ a b q ha hb = ground arith

  -- `1+ 1- 2+ 2* negate abs invert` compute on the signed integer and keep the low 32 bits.
  handler_maps :
      (h : Handler) (a : ℕ) {f : ℤ → ℤ}
      → function h ≡ some f
      → a < word_mod
      → Spec.run size (handler foreign_word h) (a ∷ xs) e
        ≡ ok tt (record { items = of_int (f (to_int a)) ∷ xs; env = e })
  unfolding handler function Spec.run onep_word ones_word twop_word twom_word negate_word abs_word
      invert_word ◌+ℤ◌ ◌-ℤ◌
  handler_maps Handler.onep a q ha = ground arith
  handler_maps _ a q ha = ground arith

  -- `n low high within` tests low ≤ n < high, as signed integers.
  pub within_compares :
      (n low high : ℕ)
      → n < word_mod
      → low < word_mod
      → high < word_mod
      → Spec.run size (handler foreign_word Handler.within) (high ∷ low ∷ n ∷ xs) e
        ≡ ok tt (record {
          items = flag (not (ltb_ℤ (to_int n) (to_int low)) && ltb_ℤ (to_int n) (to_int high)) ∷ xs;
          env = e;
        })
  unfolding handler Spec.run within_word
  within_compares n low high hn hl hh = ground arith
